-- ===== src/Files/Apart/Runs.antt =====
-- Two temporary files, and the theorem at them.
use Prim.Native.String.{String}
use Prim.Native.Char.{code}
use sane_in_the_membrane.Common.{
  ◌*◌, ◌^◌, ℕ, zero, suc, ◌+◌, ◌≡◌, refl, sym, ap, ◌∙◌, List, [], ◌∷◌, none, ◌==◌, if◌then◌else◌,
  arith,
}
use sane_in_the_membrane.Common.Exec.{ok}
use sane_in_the_membrane.Common.Decimal.{digits}
use sane_in_the_membrane.Files.FileSystem.{FileSystem, read_all}
use sane_in_the_membrane.Files.File.{File, new_file}
use sane_in_the_membrane.Files.Manager.{FileManager, new_temp_file, write_to_file}
use sane_in_the_membrane.Files.TempPaths.{
  TempState, generate_temp_filepath, new_temp_file_with_extension, new_temp_files,
}
use sane_in_the_membrane.Files.Apart.{made, write_to_file-apart}
use sane_in_the_membrane.UniqueId.{new_generator, id}

-- A text for a list of numbers: each is so many letters.
abbrev unary : ℕ → String → String
unary zero s = String.◌∷◌ "b" s
unary (suc n) s = String.◌∷◌ "a" (unary n s)

abbrev text : List ℕ → String
text [] = ""
text (x ∷ xs) = unary x (text xs)

decode : ℕ → String → List ℕ
decode n String.[] = []
decode n (String.◌∷◌ c s) =
    let more = decode (suc n) s in let next = n ∷ decode 0 s in if code c == 98 then next else more

decode-unary : (k n : ℕ) (s : String) → decode k (unary n s) ≡ (k + n) ∷ decode 0 s
unfolding decode
decode-unary k zero s = ap (λ m. m ∷ decode 0 s) (omega arith)
decode-unary k (suc n) s = decode-unary (suc k) n s ∙ ap (λ m. m ∷ decode 0 s) (omega arith)

decode-text : (xs : List ℕ) → decode 0 (text xs) ≡ xs
unfolding decode
decode-text [] = refl
decode-text (x ∷ xs) =
    decode-unary 0 x (text xs)
    ∙ ap (λ ys. (0 + x) ∷ ys) (decode-text xs)
    ∙ ap (λ m. m ∷ xs) (omega arith)

text-injective : (xs ys : List ℕ) → text xs ≡ text ys → xs ≡ ys
text-injective xs ys e = sym (decode-text xs) ∙ ap (decode 0) e ∙ decode-text ys

abbrev start : TempState
start = record {
  generator = new_generator;
  manager = record { files = []; managed_temp_files = [] };
  fs = λ path. none;
}

-- The clock does not move between the two.
abbrev times : List ℕ
times = 5 ∷ 5 ∷ []

abbrev file_of : ℕ → File
file_of new_id = record {
  path = text (generate_temp_filepath (b'/' ∷ b't' ∷ []) (b'j' ∷ []) new_id);
  size = 0;
}

abbrev two_made : TempState
two_made = made text (b'/' ∷ b't' ∷ []) (b'j' ∷ []) times 7 start

write_to_file-apart_example :
    (m : FileManager) × (fs : FileSystem) × (write_to_file 1 (1 ∷ []) two_made.manager two_made.fs
      ≡ ok (m, fs))
    × (read_all fs (file_of (5 * 2 ^ 20 + 7)).path
        ≡ read_all two_made.fs (file_of (5 * 2 ^ 20 + 7)).path)
unfolding new_temp_files new_temp_file_with_extension new_temp_file new_file id
    generate_temp_filepath digits write_to_file
write_to_file-apart_example =
    write_to_file-apart text (b'/' ∷ b't' ∷ []) (b'j' ∷ []) times 7 start 0 1
      (file_of (5 * 2 ^ 20 + 7)) (file_of (5 * 2 ^ 20 + 2 ^ 8 + 7)) (1 ∷ []) text-injective
      (omega arith) (λ e. cc e) refl refl
