-- ===== src/Files/Manager.antt =====
-- `CFileManager` of gui-app/src/Service/FileManager.hpp and FileManger.cpp. A shared pointer to a
-- file is its index among the files made so far; the path of a temporary file is an argument.
use Prim.Native.String.{String}
use sane_in_the_membrane.Common.{
  ℕ, Bool, true, false, not, List, [], ◌∷◌, ◌++◌, Option, none, some, ◌==◌, ◌&&◌, ◌||◌,
  if◌then◌else◌, length, get_elem?, set,
}
use sane_in_the_membrane.Common.Exec.{Exec, ok, fault, Expected, value, unexpected}
use sane_in_the_membrane.Files.FileSystem.{
  FileSystem, put_entry, fs_exists, is_regular_file, is_directory, directory,
}
use sane_in_the_membrane.Files.File.{moved_file, File, new_file, write}

pub data WriteBehaviour : Type 0 where
  fail_on_duplicate override_file : WriteBehaviour

pub record FileManager : Type 0 where
  pub files : List File
  pub managed_temp_files : List ℕ

abbrev pub overrides : WriteBehaviour → Bool
overrides fail_on_duplicate = false
overrides override_file = true

unfoldable pub write_file :
    String → List ℕ → WriteBehaviour → FileSystem → Expected File String × FileSystem
unfolding new_file write
write_file path bytes behaviour fs =
    if fs_exists fs path && is_regular_file fs path && not (overrides behaviour)
    then (unexpected "File exists", fs)
    else (
      value (moved_file (write (new_file path fs).0 bytes (new_file path fs).1).0),
      (write (new_file path fs).0 bytes (new_file path fs).1).1,
    )

-- The index of the new file, the manager and the file system.
unfoldable pub new_temp_file : String → FileManager → FileSystem → ℕ × FileManager × FileSystem
new_temp_file path m fs = (
  length m.files,
  record {
    files = m.files ++ ((new_file path fs).0 ∷ []);
    managed_temp_files = m.managed_temp_files ++ (length m.files ∷ []);
  },
  (new_file path fs).1,
)

unfoldable pub write_found :
    Option File → ℕ → List ℕ → FileManager → FileSystem → Exec (FileManager × FileSystem)
write_found none i bytes m fs = fault
write_found (some f) i bytes m fs =
    ok (record m { files = set m.files i (write f bytes fs).0 }, (write f bytes fs).1)

unfoldable pub write_to_file :
    ℕ → List ℕ → FileManager → FileSystem → Exec (FileManager × FileSystem)
unfolding write_found
write_to_file i bytes m fs = write_found (get_elem? m.files i) i bytes m fs

-- Every occurrence of a pointer leaves the vector.
abbrev pub erase_pointer : List ℕ → ℕ → List ℕ
erase_pointer [] i = []
erase_pointer (j ∷ js) i = let rest = erase_pointer js i in if j == i then rest else j ∷ rest

unfoldable pub delete_found :
    Option File → ℕ → FileManager → FileSystem → Exec (Bool × FileManager × FileSystem)
delete_found none i m fs = fault
delete_found (some f) i m fs =
    if not (fs_exists fs f.path) || not (is_regular_file fs f.path)
    then ok (false, m, fs)
    else ok (
      true,
      record m { managed_temp_files = erase_pointer m.managed_temp_files i },
      put_entry fs f.path none,
    )

unfoldable pub delete_file : ℕ → FileManager → FileSystem → Exec (Bool × FileManager × FileSystem)
unfolding delete_found
delete_file i m fs = delete_found (get_elem? m.files i) i m fs

-- `generate_temp_dir`, from the path of the program's directory: it is made if it is not there, and
-- a file in its place is a failure.
unfoldable pub generate_temp_dir : String → FileSystem → Expected String String × FileSystem
generate_temp_dir path fs =
    if fs_exists fs path && is_directory fs path
    then (value path, fs)
    else if fs_exists fs path
    then (unexpected "Failed to create directory", fs)
    else (value path, put_entry fs path (some directory))
