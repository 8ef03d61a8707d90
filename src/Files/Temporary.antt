-- ===== src/Files/Temporary.antt =====
-- What `CFileManager` of gui-app/src/Service/FileManger.cpp does with files.
use Prim.Native.String.{String}
use text.Mathlib.TextPositions.{eq_refl}
use sane_in_the_membrane.Common.{
  ℕ, ◌<◌, ◌≡◌, refl, ap, ◌∙◌, true, false, List, [], ◌∷◌, ◌++◌, none, some, length, get_elem?,
  get_elem?-append, All, arith, append-nil,
}
use sane_in_the_membrane.Common.Exec.{ok, value, unexpected}
use sane_in_the_membrane.Files.FileSystem.{FileSystem, regular, put_entry, read_all, write_app}
use sane_in_the_membrane.Files.File.{File, new_file, write, read}
use sane_in_the_membrane.Files.Manager.{
  fail_on_duplicate, override_file, FileManager, write_file, new_temp_file, delete_file,
  delete_found, erase_pointer,
}

-- The pointers of the vector are to files made so far.
abbrev pub IsManaged : FileManager → Type 0
IsManaged m = All (λ i. i < length m.files) m.managed_temp_files

erase_pointer-new :
    (xs : List ℕ) (n : ℕ) → All (λ i. i < n) xs → erase_pointer (xs ++ (n ∷ [])) n ≡ xs
erase_pointer-new [] n h = grind arith
erase_pointer-new (x ∷ xs) n h = grind (arith, erase_pointer-new xs n h.1, h.0)

-- A temporary file at a free path, deleted again: the deletion succeeds, the path is free as before,
-- and the manager manages what it did before; deleting it once more says that there is no file.
pub delete_file-new_temp_file :
    (path : String) (m : FileManager) (fs : FileSystem)
    → IsManaged m
    → fs path ≡ none
    → (m' : FileManager) × (fs' : FileSystem) × (delete_file
          (new_temp_file path m fs).0
          (new_temp_file path m fs).1
          (new_temp_file path m fs).2
        ≡ ok (true, m', fs'))
      × (fs' path ≡ none)
      × (m'.managed_temp_files ≡ m.managed_temp_files)
      × (delete_file (new_temp_file path m fs).0 m' fs' ≡ ok (false, m', fs'))
unfolding delete_file delete_found new_temp_file new_file
delete_file-new_temp_file path m fs managed free =
    let f : File = record { path = path; size = 0 } in
    let files = m.files ++ (f ∷ []) in
    let i = length m.files in
    let m₁ : FileManager = record {
      files = files;
      managed_temp_files = m.managed_temp_files ++ (i ∷ []);
    } in
    let fs₁ = write_app fs path [] in
    let m₂ : FileManager = record {
      files = files;
      managed_temp_files = erase_pointer m₁.managed_temp_files i;
    } in
    let fs₂ = put_entry fs₁ path none in
    let found : get_elem? files i ≡ some f = get_elem?-append m.files [] f in
    let deletes : delete_found (some f) i m₁ fs₁ ≡ ok (true, m₂, fs₂) =
      ground (arith, eq_refl path) in
    let refuses : delete_found (some f) i m₂ fs₂ ≡ ok (false, m₂, fs₂) =
      ground (arith, eq_refl path) in
    (
      m₂,
      fs₂,
      ap (λ o. delete_found o i m₁ fs₁) found ∙ deletes,
      grind (arith, eq_refl path),
      erase_pointer-new m.managed_temp_files i managed,
      ap (λ o. delete_found o i m₂ fs₂) found ∙ refuses,
    )

-- `write_file` on a path that holds a regular file: by default it refuses and leaves the file alone;
-- asked to override, it keeps the old bytes and appends the new ones, and the file that it returns has
-- lost its count.
pub write_file-existing :
    (path : String) (bytes old : List ℕ) (fs : FileSystem)
    → fs path ≡ some (regular old)
    → (write_file path bytes fail_on_duplicate fs ≡ (unexpected "File exists", fs))
      × (f : File) × ((write_file path bytes override_file fs).0 ≡ value f)
      × (read f (write_file path bytes override_file fs).1 ≡ old ++ bytes)
      × (f.size ≡ 0)
unfolding write_file new_file write read
write_file-existing path bytes old fs h =
    (ground arith, record { path = path; size = 0 }, written.0, written.1, refl)
  where
    written :
        ((write_file path bytes override_file fs).0 ≡ value (record { path = path; size = 0 }))
        × (read_all (write_file path bytes override_file fs).1 path ≡ old ++ bytes)
    written = ground (arith, eq_refl path, append-nil old)
