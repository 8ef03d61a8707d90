-- ===== src/Files/Apart.antt =====
-- That the temporary files of gui-app/src/Service/FileManger.cpp do not share a path.
mod Runs
use Prim.Native.String.{String}
use text.Mathlib.Text.{◌==◌ as str_eq}
use text.Mathlib.TextEquality.{eq_iff}
use mathlib.Core.Path.{subst}
use mathlib.Core.Option.{some_inj}
use mathlib.Core.List.{append_cancel_left, append_cancel_right}
use sane_in_the_membrane.Common.{
  ℕ, zero, suc, ◌+◌, ◌*◌, ◌%◌, ◌^◌, ◌≤◌, ◌<◌, ◌≡◌, ◌≢◌, refl, sym, ap, ◌∙◌, Bool, true, false, List,
  [], ◌∷◌, ◌++◌, Option, none, some, map, length, get_elem?, set, append-nil, append_assoc, All,
  arith, Bool-cases, inl, inr,
}
use sane_in_the_membrane.Common.Exec.{Exec, ok}
use sane_in_the_membrane.Common.Decimal.{digits, digits-injective}
use sane_in_the_membrane.Files.FileSystem.{
  FileSystem, Entry, regular, put_entry, read_all, write_app, is_directory,
}
use sane_in_the_membrane.Files.File.{File, new_file, write}
use sane_in_the_membrane.Files.Manager.{FileManager, new_temp_file, write_found, write_to_file}
use sane_in_the_membrane.Files.TempPaths.{
  path_append, ends_in_separator, dotted, generate_temp_filepath, TempState,
  new_temp_file_with_extension, new_temp_files,
}
use sane_in_the_membrane.UniqueId.{Generator, id, ids}
use sane_in_the_membrane.UniqueId.Distinct.{Distinct, ids-Distinct, id-IsU64}

path_append-injective : (dir xs ys : List ℕ) → path_append dir xs ≡ path_append dir ys → xs ≡ ys
path_append-injective dir xs ys e = elim (Bool-cases (ends_in_separator dir)) [
  | inl s ↦ append_cancel_left dir xs ys (rw s at e)
  | inr s ↦
      append_cancel_left (b'/' ∷ []) xs ys
        (append_cancel_left dir (b'/' ∷ xs) (b'/' ∷ ys) (rw s at e))
]

generate_temp_filepath-injective :
    (temp_dir extension : List ℕ) (a b : ℕ)
    → a < 2 ^ 64
    → b < 2 ^ 64
    → generate_temp_filepath temp_dir extension a ≡ generate_temp_filepath temp_dir extension b
    → a ≡ b
unfolding generate_temp_filepath
generate_temp_filepath-injective temp_dir extension a b p q e =
    digits-injective 20 a b (omega arith) (omega arith) (
      append_cancel_right (digits 20 a) (digits 20 b) (dotted extension)
        (path_append-injective temp_dir _ _ e))

All-get_elem? : (P : ℕ → Type 0) (xs : List ℕ) (i a : ℕ) → All P xs → get_elem? xs i ≡ some a → P a
All-get_elem? P [] i a h e = cc
All-get_elem? P (x ∷ xs) zero a h e = subst P (some_inj.0 e) h.0
All-get_elem? P (x ∷ xs) (suc i) a h e = All-get_elem? P xs i a h.1 e

Distinct-get_elem? :
    (xs : List ℕ) (i j a b : ℕ)
    → Distinct xs
    → get_elem? xs i ≡ some a
    → get_elem? xs j ≡ some b
    → i ≢ j
    → a ≢ b
Distinct-get_elem? [] i j a b d e e' n = cc
Distinct-get_elem? (x ∷ xs) zero zero a b d e e' n = absurd (n refl)
Distinct-get_elem? (x ∷ xs) zero (suc j) a b d e e' n =
    λ same. All-get_elem? (λ y. y ≢ x) xs j b d.0 e' (cc (same, e))
Distinct-get_elem? (x ∷ xs) (suc i) zero a b d e e' n =
    λ same. All-get_elem? (λ y. y ≢ x) xs i a d.0 e (cc (same, e'))
Distinct-get_elem? (x ∷ xs) (suc i) (suc j) a b d e e' n =
    Distinct-get_elem? xs i j a b d.1 e e' (λ same. n (ap suc same))

get_elem?-add :
    {A : Type 0} (xs ys : List A) (i : ℕ) → get_elem? (xs ++ ys) (length xs + i) ≡ get_elem? ys i
get_elem?-add [] ys i = ap (get_elem? ys) (omega arith)
get_elem?-add (x ∷ xs) ys i =
    let next : suc (length xs) + i ≡ suc (length xs + i) = omega arith in
    ap (get_elem? (x ∷ (xs ++ ys))) next ∙ get_elem?-add xs ys i

get_elem?-map_inv :
    {A B : Type 0} (f : A → B) (xs : List A) (i : ℕ) (b : B)
    → get_elem? (map f xs) i ≡ some b
    → (a : A) × (get_elem? xs i ≡ some a) × (f a ≡ b)
get_elem?-map_inv f [] i b e = absurd (cc e)
get_elem?-map_inv f (x ∷ xs) zero b e = (x, refl, some_inj.0 e)
get_elem?-map_inv f (x ∷ xs) (suc i) b e = get_elem?-map_inv f xs i b e

ids-IsU64 : (times : List ℕ) (hash : ℕ) (g : Generator) → All (λ x. x < 2 ^ 64) (ids times hash g)
unfolding ids
ids-IsU64 [] hash g = tt
ids-IsU64 (time_now ∷ times) hash g =
    (id-IsU64 time_now hash g, ids-IsU64 times hash (id time_now hash g).1)

put_entry-other :
    (fs : FileSystem) (path other : String) (entry : Option Entry)
    → str_eq path other ≡ false
    → put_entry fs path entry other ≡ fs other
put_entry-other fs path other entry e = rw e refl

read_all-same :
    (fs fs' : FileSystem) (path : String)
    → fs path ≡ fs' path
    → read_all fs path ≡ read_all fs' path
read_all-same fs fs' path e = rw (e, read_all) refl

-- Writing to another path leaves what is read.
read_all-write_app :
    (fs : FileSystem) (path other : String) (bytes : List ℕ)
    → path ≢ other
    → read_all (write_app fs path bytes) other ≡ read_all fs other
read_all-write_app fs path other bytes n = elim (Bool-cases (is_directory fs path)) [
  | inl d ↦ rw d refl
  | inr d ↦ elim (Bool-cases (str_eq path other)) [
    | inl e ↦ absurd (n ((eq_iff path other).0 e))
    | inr e ↦ rw d (
        read_all-same (put_entry fs path (some (regular (read_all fs path ++ bytes)))) fs other
          (put_entry-other fs path other (some (regular (read_all fs path ++ bytes))) e))
  ]
]

module _ (text : List ℕ → String) (temp_dir extension : List ℕ) where
  abbrev pub made : List ℕ → ℕ → TempState → TempState
  made times hash s = new_temp_files text temp_dir extension times hash s

  abbrev path_of : File → String
  path_of f = f.path

  abbrev file_at : ℕ → File
  file_at new_id = record {
    path = text (generate_temp_filepath temp_dir extension new_id);
    size = 0;
  }

  new_temp_files-files :
      (times : List ℕ) (hash : ℕ) (s : TempState)
      → (new_temp_files text temp_dir extension times hash s).manager.files
        ≡ s.manager.files ++ map file_at (ids times hash s.generator)
  unfolding new_temp_files new_temp_file_with_extension new_temp_file ids new_file
  new_temp_files-files [] hash s = sym (append-nil s.manager.files)
  new_temp_files-files (time_now ∷ times) hash s =
      new_temp_files-files times hash
        (new_temp_file_with_extension text temp_dir extension time_now hash s)
      ∙ append_assoc s.manager.files _ _

  -- While it makes at most 4096 temporary files, a thread shares none of them out twice: if the text of
  -- a path tells its bytes, then to write to one of these files succeeds, and leaves what can be read
  -- from any other.
  pub write_to_file-apart :
      (times : List ℕ) (hash : ℕ) (s : TempState) (i j : ℕ) (f h : File) (bytes : List ℕ)
      → ((xs ys : List ℕ) → text xs ≡ text ys → xs ≡ ys)
      → length times ≤ 2 ^ 12
      → i ≢ j
      → get_elem? (made times hash s).manager.files (length s.manager.files + i) ≡ some f
      → get_elem? (made times hash s).manager.files (length s.manager.files + j) ≡ some h
      → (m : FileManager) × (fs : FileSystem) × (write_to_file
            (length s.manager.files + j)
            bytes
            (made times hash s).manager
            (made times hash s).fs
          ≡ ok (m, fs))
        × (read_all fs f.path ≡ read_all (made times hash s).fs f.path)
  unfolding write_to_file write_found write
  write_to_file-apart times hash s i j f h bytes injective few n e e' =
      let now = made times hash s in
      let new_ids = ids times hash s.generator in
      let at : (k : ℕ)
          → get_elem? now.manager.files (length s.manager.files + k)
            ≡ get_elem? (map file_at new_ids) k =
        λ k.
          ap (λ files. get_elem? files (length s.manager.files + k))
            (new_temp_files-files times hash s)
          ∙ get_elem?-add s.manager.files (map file_at new_ids) k in
      let (a, found, same) = get_elem?-map_inv file_at new_ids i f (sym (at i) ∙ e) in
      let (b, found', same') = get_elem?-map_inv file_at new_ids j h (sym (at j) ∙ e') in
      let small = ids-IsU64 times hash s.generator in
      let differ =
        Distinct-get_elem? new_ids i j a b (ids-Distinct times hash s.generator few) found found'
          n in
      (
        record now.manager {
          files = set now.manager.files (length s.manager.files + j) (write h bytes now.fs).0;
        },
        (write h bytes now.fs).1,
        rw e' refl,
        read_all-write_app now.fs h.path f.path bytes (λ paths. differ (
            generate_temp_filepath-injective temp_dir extension a b
              (All-get_elem? (λ x. x < 2 ^ 64) new_ids i a small found)
              (All-get_elem? (λ x. x < 2 ^ 64) new_ids j b small found')
              (injective _ _ (ap path_of same ∙ sym paths ∙ sym (ap path_of same'))))),
      )
