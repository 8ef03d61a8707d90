-- ===== src/Files/FileRw.antt =====
-- `CFileRW` of gui-app/src/Utils/File.{hpp,cpp}: the file is opened anew for every call.
use sane_in_the_membrane.Common.{ℕ, ◌≡◌, Bool, true, false, List, ◌++◌, ◌&&◌, arith}
use sane_in_the_membrane.Files.FileSystem.{
  FileSystem, fs_exists, is_regular_file, is_directory, read_all, write_trunc, write_app,
}
use Prim.Native.String.{String}
use text.Mathlib.Text.{◌==◌ as str_eq}
use text.Mathlib.TextPositions.{eq_refl}

pub record FileRw : Type 0 where
  pub path : String

unfoldable pub write : FileRw → List ℕ → FileSystem → FileSystem
write f bytes fs = write_trunc fs f.path bytes

unfoldable pub append : FileRw → List ℕ → FileSystem → FileSystem
append f bytes fs = write_app fs f.path bytes

unfoldable pub read : FileRw → FileSystem → List ℕ
read f fs = read_all fs f.path

unfoldable pub exists : FileRw → FileSystem → Bool
exists f fs = fs_exists fs f.path && is_regular_file fs f.path

-- The path does not name a directory, so that the streams open.
abbrev pub IsOpenable : FileSystem → FileRw → Type 0
IsOpenable fs f = is_directory fs f.path ≡ false

-- `write` then `append` leaves exactly the two pieces, whatever the file held.
pub read-append-write :
    (f : FileRw) (xs ys : List ℕ) (fs : FileSystem)
    → IsOpenable fs f
    → (exists f (append f ys (write f xs fs)) ≡ true)
      × (read f (append f ys (write f xs fs)) ≡ xs ++ ys)
unfolding read append write exists
read-append-write f xs ys fs h = ground (arith, eq_refl f.path)

-- Writing leaves every other path alone.
pub write_elsewhere :
    (f : FileRw) (xs ys : List ℕ) (fs : FileSystem) (other : String)
    → str_eq f.path other ≡ false
    → append f ys (write f xs fs) other ≡ fs other
unfolding append write
write_elsewhere f xs ys fs other h = ground arith
