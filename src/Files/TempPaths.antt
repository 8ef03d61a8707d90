-- ===== src/Files/TempPaths.antt =====
-- The temporary files that a thread makes: `generate_temp_filepath` and `new_temp_file_with_extension`
-- of gui-app/src/Service/FileManger.cpp with the ids of
-- gui-app/src/Service/UniqueIdGenerator.cpp. A path is its bytes; the text that the file system takes
-- is a parameter.
use Prim.Native.String.{String}
use sane_in_the_membrane.Common.{ℕ, Bool, true, List, [], ◌∷◌, ◌++◌, ◌==◌, if◌then◌else◌}
use sane_in_the_membrane.Common.Decimal.{digits}
use sane_in_the_membrane.Files.FileSystem.{FileSystem}
use sane_in_the_membrane.Common.Exec.{Exec, ok, fault, Expected, value, unexpected}
use sane_in_the_membrane.Files.Manager.{FileManager, new_temp_file, generate_temp_dir}
use sane_in_the_membrane.UniqueId.{Generator, id}

-- `path::append`, which adds a separator unless there is one or the path is empty.
abbrev pub ends_in_separator : List ℕ → Bool
ends_in_separator [] = true
ends_in_separator (b ∷ []) = b == b'/'
ends_in_separator (b ∷ c ∷ bytes) = ends_in_separator (c ∷ bytes)

abbrev pub path_append : List ℕ → List ℕ → List ℕ
path_append dir name = if ends_in_separator dir then dir ++ name else dir ++ (b'/' ∷ name)

-- What `path::replace_extension` adds to a name without an extension, which a number is.
abbrev pub dotted : List ℕ → List ℕ
dotted [] = []
dotted (b ∷ extension) = if b == b'.' then b ∷ extension else b'.' ∷ b ∷ extension

unfoldable pub generate_temp_filepath : List ℕ → List ℕ → ℕ → List ℕ
generate_temp_filepath temp_dir extension new_id =
    path_append temp_dir (digits 20 new_id ++ dotted extension)

-- What the thread and the file manager keep, and the disk.
pub record TempState : Type 0 where
  pub generator : Generator
  pub manager : FileManager
  pub fs : FileSystem

module _ (text : List ℕ → String) (temp_dir extension : List ℕ) where
  unfoldable pub new_temp_file_with_extension : ℕ → ℕ → TempState → TempState
  unfolding new_temp_file generate_temp_filepath id
  new_temp_file_with_extension time_now hash s =
      let (new_id, g) = id time_now hash s.generator in
      let (i, m, fs) =
        new_temp_file (text (generate_temp_filepath temp_dir extension new_id)) s.manager s.fs in
      record { generator = g; manager = m; fs = fs }

  -- One file at each of the times.
  unfoldable pub new_temp_files : List ℕ → ℕ → TempState → TempState
  unfolding new_temp_file_with_extension
  new_temp_files [] hash s = s
  new_temp_files (time_now ∷ times) hash s =
      new_temp_files times hash (new_temp_file_with_extension time_now hash s)

-- `new_temp_file_unmanaged<T>`: the constructor of `T` gets a path under the name given.
abbrev pub new_temp_file_unmanaged : {T : Type 0} → (List ℕ → T) → List ℕ → List ℕ → T
new_temp_file_unmanaged new temp_dir filename = new (path_append temp_dir filename)

-- `CFileManager()`: without a directory for its files nothing catches what `value` throws.
abbrev pub with_temp_dir : Expected String String → FileSystem → Exec (FileManager × FileSystem)
with_temp_dir (value temp_dir) fs = ok (record { files = []; managed_temp_files = [] }, fs)
with_temp_dir (unexpected e) fs = fault

unfoldable pub new_file_manager : String → FileSystem → Exec (FileManager × FileSystem)
unfolding generate_temp_dir
new_file_manager path fs = with_temp_dir (generate_temp_dir path fs).0 (generate_temp_dir path fs).1
