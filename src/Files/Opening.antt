-- ===== src/Files/Opening.antt =====
-- What the constructor of `CFile` (gui-app/src/Utils/File.{hpp,cpp}) leaves of the other files.
use Prim.Native.String.{String}
use mathlib.Core.Path.{subst}
use text.Mathlib.Text.{◌==◌ as str_eq}
use text.Mathlib.TextEquality.{eq_iff}
use sane_in_the_membrane.Common.{
  ℕ, ◌≡◌, refl, sym, Bool, true, false, if◌then◌else◌, ap, ◌∙◌, List, [], ◌++◌, Option, none, some,
  append-nil, Bool-cases, inl, inr, ◌⊎◌,
}
use sane_in_the_membrane.Files.FileSystem.{Entry, regular, directory, FileSystem, put_entry}
use sane_in_the_membrane.Files.File.{new_file}
use sane_in_the_membrane.Files.FileRw.{FileRw, IsOpenable}

-- Every entry is as it was, but for missing ones that are empty files now.
abbrev pub OnlyMakes : FileSystem → FileSystem → Type 0
OnlyMakes fs fs' =
    (path : String) → (fs' path ≡ fs path) ⊎ ((fs path ≡ none) × (fs' path ≡ some (regular [])))

pub OnlyMakes-trans :
    {fs fs' fs'' : FileSystem} → OnlyMakes fs fs' → OnlyMakes fs' fs'' → OnlyMakes fs fs''
OnlyMakes-trans h k path = elim (h path) [
  | inl e ↦ elim (k path) [ inl e' ↦ inl (e' ∙ e) | inr (n, m) ↦ inr (sym e ∙ n, m) ]
  | inr (n, m) ↦ elim (k path) [ inl e' ↦ inr (n, e' ∙ m) | inr (n', m') ↦ inr (n, m') ]
]

made :
    (fs : FileSystem) (path : String) (before entry : Option Entry)
    → fs path ≡ before
    → (entry ≡ before) ⊎ ((before ≡ none) × (entry ≡ some (regular [])))
    → OnlyMakes fs (put_entry fs path entry)
made fs path before entry e h other = elim (Bool-cases (str_eq path other)) [
  | inl same ↦ rw same (
      subst (λ b. (entry ≡ b) ⊎ ((b ≡ none) × (entry ≡ some (regular []))))
        (sym e ∙ ap fs ((eq_iff path other).0 same)) h)
  | inr apart ↦ rw apart (inl refl)
]

abbrev is_directory_entry : Option Entry → Bool
is_directory_entry none = false
is_directory_entry (some (regular bs)) = false
is_directory_entry (some directory) = true

abbrev bytes_in : Option Entry → List ℕ
bytes_in none = []
bytes_in (some (regular bs)) = bs
bytes_in (some directory) = []

opened-OnlyMakes :
    (fs : FileSystem) (path : String) (e : Option Entry)
    → fs path ≡ e
    → OnlyMakes fs
        (if is_directory_entry e then fs else put_entry fs path (some (regular (bytes_in e ++ []))))
opened-OnlyMakes fs path none h = made fs path none (some (regular [])) h (inr (refl, refl))
opened-OnlyMakes fs path (some (regular bs)) h =
    made fs path (some (regular bs)) (some (regular (bs ++ []))) h
      (inl (ap (λ xs. some (regular xs)) (append-nil bs)))
opened-OnlyMakes fs path (some directory) h = λ other. inl refl

pub new_file-OnlyMakes : (path : String) (fs : FileSystem) → OnlyMakes fs (new_file path fs).1
unfolding new_file
new_file-OnlyMakes path fs = opened-OnlyMakes fs path (fs path) refl

pub OnlyMakes-IsOpenable :
    {fs fs' : FileSystem} (f : FileRw) → OnlyMakes fs fs' → IsOpenable fs f → IsOpenable fs' f
OnlyMakes-IsOpenable f h opens = elim (h f.path) [
  | inl e ↦ subst (λ x. is_directory_entry x ≡ false) (sym e) opens
  | inr (n, m) ↦ subst (λ x. is_directory_entry x ≡ false) (sym m) refl
]
