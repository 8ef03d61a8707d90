-- ===== src/Files/FileSystem.antt =====
-- Files on disk: gui-app/src/Utils/File.{hpp,cpp}. The file system is a map from paths to entries;
-- streams on regular files in existing directories succeed, and one that cannot open does nothing.
use Prim.Native.String.{String}
use text.Mathlib.Text.{◌==◌ as str_eq}
use sane_in_the_membrane.Common.{
  ℕ, Bool, true, false, List, [], ◌++◌, Option, none, some, if◌then◌else◌,
}

pub data Entry : Type 0 where
  regular : List ℕ → Entry
  directory : Entry

abbrev pub FileSystem : Type 0
FileSystem = String → Option Entry

abbrev pub put_entry : FileSystem → String → Option Entry → FileSystem
put_entry fs path e other = if str_eq path other then e else fs other

abbrev pub fs_exists : FileSystem → String → Bool
fs_exists fs path = elim (fs path) [ none ↦ false | some e ↦ true ]

abbrev pub is_regular_file : FileSystem → String → Bool
is_regular_file fs path = elim (fs path) [
  | none ↦ false
  | some (regular bs) ↦ true
  | some directory ↦ false
]

abbrev pub is_directory : FileSystem → String → Bool
is_directory fs path = elim (fs path) [
  | none ↦ false
  | some (regular bs) ↦ false
  | some directory ↦ true
]

-- `std::ifstream` read to its end; a stream that did not open reads as empty.
abbrev pub read_all : FileSystem → String → List ℕ
read_all fs path = elim (fs path) [ none ↦ [] | some (regular bs) ↦ bs | some directory ↦ [] ]

-- `std::ofstream` with `out | binary`, which truncates, and with `app`, which does not.
abbrev pub write_trunc : FileSystem → String → List ℕ → FileSystem
write_trunc fs path bytes =
    if is_directory fs path then fs else put_entry fs path (some (regular bytes))

abbrev pub write_app : FileSystem → String → List ℕ → FileSystem
write_app fs path bytes =
    if is_directory fs path
    then fs
    else put_entry fs path (some (regular (read_all fs path ++ bytes)))
