-- ===== src/Session/Item.antt =====
-- One page in the session file: `SImageItemSerialized` of gui-app/src/Ui/ImageView.{hpp,cpp}.
-- A `qreal` is its 64-bit pattern, a path its bytes.
use sane_in_the_membrane.Common.{
  ℕ, zero, suc, ◌+◌, ◌≡◌, sym, ap, ◌∙◌, List, [], ◌++◌, Option, none, some, arith, ltb,
  if◌then◌else◌, length, length-append, take, drop, take-length-append, drop-length-append,
  append-nil,
}
use sane_in_the_membrane.Common.Word.{
  IsU64, add64, to_bytes, of_bytes, length-to_bytes, of_bytes-to_bytes,
}
use sane_in_the_membrane.Common.Exec.{Exec, ok, ◌>>=◌}
use sane_in_the_membrane.Session.Memory.{Memory, load}

pub record QtMatrix : Type 0 where
  pub m11 : ℕ
  pub m12 : ℕ
  pub m13 : ℕ
  pub m21 : ℕ
  pub m22 : ℕ
  pub m23 : ℕ
  pub m31 : ℕ
  pub m32 : ℕ
  pub m33 : ℕ

pub record ImageItemSerialized : Type 0 where
  pub transform_matrix : QtMatrix
  pub page_number : ℕ
  pub path : List ℕ

-- The object representation of a matrix: nine doubles in declaration order, no padding.
unfoldable pub matrix_bytes : QtMatrix → List ℕ
matrix_bytes m =
    to_bytes 8 m.m11
    ++ (to_bytes 8 m.m12
        ++ (to_bytes 8 m.m13
            ++ (to_bytes 8 m.m21
                ++ (to_bytes 8 m.m22
                    ++ (to_bytes 8 m.m23
                        ++ (to_bytes 8 m.m31 ++ (to_bytes 8 m.m32 ++ to_bytes 8 m.m33)))))))

-- The i-th double of an object representation.
unfoldable pub word_at : ℕ → List ℕ → ℕ
word_at zero bs = of_bytes (take 8 bs)
word_at (suc i) bs = word_at i (drop 8 bs)

unfoldable pub matrix_of_bytes : List ℕ → QtMatrix
matrix_of_bytes bs = record {
  m11 = word_at 0 bs;
  m12 = word_at 1 bs;
  m13 = word_at 2 bs;
  m21 = word_at 3 bs;
  m22 = word_at 4 bs;
  m23 = word_at 5 bs;
  m31 = word_at 6 bs;
  m32 = word_at 7 bs;
  m33 = word_at 8 bs;
}

unfoldable pub serialize : ImageItemSerialized → List ℕ
serialize item =
    matrix_bytes item.transform_matrix
    ++ (to_bytes 8 item.page_number ++ (to_bytes 8 (length item.path) ++ item.path))

-- Reads from `start` on, never past `end` by its own tests; `none` is `std::nullopt`.
unfoldable pub deserialize : Memory → ℕ → ℕ → Exec (Option ImageItemSerialized)
deserialize mem start end = if ltb end (add64 start 72) then ok none else do
  matrix ← load mem start 72
  let start₁ = add64 start 72
  if ltb end (add64 start₁ 8) then ok none else do
    page ← load mem start₁ 8
    let start₂ = add64 start₁ 8
    if ltb end (add64 start₂ 8) then ok none else do
      size ← load mem start₂ 8
      let path_size = of_bytes size
      let start₃ = add64 start₂ 8
      if ltb end (add64 start₃ path_size) then ok none else do
        path ← load mem start₃ path_size
        ok (
            some (record {
              transform_matrix = matrix_of_bytes matrix;
              page_number = of_bytes page;
              path = path;
            }))

pub record IsMatrix (m : QtMatrix) : Type 0 where
  pub w11 : IsU64 m.m11
  pub w12 : IsU64 m.m12
  pub w13 : IsU64 m.m13
  pub w21 : IsU64 m.m21
  pub w22 : IsU64 m.m22
  pub w23 : IsU64 m.m23
  pub w31 : IsU64 m.m31
  pub w32 : IsU64 m.m32
  pub w33 : IsU64 m.m33

-- The fields are machine words.
pub record IsItem (item : ImageItemSerialized) : Type 0 where
  pub matrix : IsMatrix item.transform_matrix
  pub page : IsU64 item.page_number

pub length-matrix_bytes : (m : QtMatrix) → length (matrix_bytes m) ≡ 72
unfolding matrix_bytes
length-matrix_bytes m = simp (length-append, length-to_bytes)

pub length-serialize : (i : ImageItemSerialized) → length (serialize i) ≡ 88 + length i.path
unfolding serialize
length-serialize i = simp (length-append, length-to_bytes, length-matrix_bytes) (omega arith)

take-word : (x : ℕ) (ys : List ℕ) → take 8 (to_bytes 8 x ++ ys) ≡ to_bytes 8 x
take-word x ys = rw (length-to_bytes 8 x) at (take-length-append (to_bytes 8 x) ys)

drop-word : (x : ℕ) (ys : List ℕ) → drop 8 (to_bytes 8 x ++ ys) ≡ ys
drop-word x ys = rw (length-to_bytes 8 x) at (drop-length-append (to_bytes 8 x) ys)

take-last_word : (x : ℕ) → take 8 (to_bytes 8 x) ≡ to_bytes 8 x
take-last_word x = ap (take 8) (sym (append-nil (to_bytes 8 x))) ∙ take-word x []

-- The nine doubles survive the copy out and back.
pub matrix_of_bytes-matrix_bytes :
    (m : QtMatrix) → IsMatrix m → matrix_of_bytes (matrix_bytes m) ≡ m
unfolding matrix_of_bytes matrix_bytes word_at
matrix_of_bytes-matrix_bytes m h = simp (
  drop-word,
  take-word,
  take-last_word,
  of_bytes-to_bytes m.m11 h.w11,
  of_bytes-to_bytes m.m12 h.w12,
  of_bytes-to_bytes m.m13 h.w13,
  of_bytes-to_bytes m.m21 h.w21,
  of_bytes-to_bytes m.m22 h.w22,
  of_bytes-to_bytes m.m23 h.w23,
  of_bytes-to_bytes m.m31 h.w31,
  of_bytes-to_bytes m.m32 h.w32,
  of_bytes-to_bytes m.m33 h.w33,
)
