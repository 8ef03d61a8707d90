-- ===== src/Files/File.antt =====
-- `CFile` of gui-app/src/Utils/File.{hpp,cpp}: a stream that is opened once, for appending, and the
-- count of the bytes written through it.
use text.Mathlib.TextPositions.{eq_refl}
use sane_in_the_membrane.Common.{ℕ, ◌+◌, ◌≡◌, false, List, [], ◌++◌, length, length-append, arith}
use sane_in_the_membrane.Files.FileSystem.{FileSystem, is_directory, read_all, write_app}
use Prim.Native.String.{String}

pub record File : Type 0 where
  pub path : String
  pub size : ℕ

-- The constructor opens the stream, which creates a missing file and keeps an existing one.
unfoldable pub new_file : String → FileSystem → File × FileSystem
new_file path fs = (record { path = path; size = 0 }, write_app fs path [])

unfoldable pub write : File → List ℕ → FileSystem → File × FileSystem
write f bytes fs = (record f { size = f.size + length bytes }, write_app fs f.path bytes)

-- `CFile(CFile&&)`, which takes the stream and the path, and not the count.
abbrev pub moved_file : File → File
moved_file f = record f { size = 0 }

unfoldable pub read : File → FileSystem → List ℕ
read f fs = read_all fs f.path

-- On a fresh path the size is the number of bytes on disk, and every write keeps it so.
abbrev pub IsCounted : File → FileSystem → Type 0
IsCounted f fs = (is_directory fs f.path ≡ false) × (f.size ≡ length (read_all fs f.path))

pub write-IsCounted :
    (f : File) (bytes : List ℕ) (fs : FileSystem)
    → IsCounted f fs
    → IsCounted (write f bytes fs).0 (write f bytes fs).1
      × (read (write f bytes fs).0 (write f bytes fs).1 ≡ read f fs ++ bytes)
unfolding write read
write-IsCounted f bytes fs c =
    let split = length-append (read_all fs f.path) bytes in ground (arith, eq_refl f.path, split)
