-- ===== src/View/Positions.antt =====
-- Where a page stands in a document, and what a move does there: lists of the specification of
-- gui-app/src/Ui/ImageView.cpp.
use sane_in_the_membrane.Common.{
  ℕ, ◌≡◌, ◌≢◌, refl, ap, true, List, [], ◌∷◌, ◌++◌, ◌==◌, arith, Bool-cases, inl, inr, ==_iff,
}
use sane_in_the_membrane.View.Numbers.{IsAbsent}
use sane_in_the_membrane.View.Document.{move_right, move_left, has_page}

-- Where a page stands.
pub record At (x : ℕ) (pages : List ℕ) : Type 0 where
  pub before : List ℕ
  pub after : List ℕ
  pub splits : pages ≡ before ++ (x ∷ after)
  pub first : IsAbsent x before

At-cons : (y x : ℕ) (pages : List ℕ) → y ≢ x → At x pages → At x (y ∷ pages)
At-cons y x pages n a = record {
  before = y ∷ a.before;
  after = a.after;
  splits = ap (◌∷◌ y) a.splits;
  first = (n, a.first);
}

pub has_page-At : (pages : List ℕ) (x : ℕ) → has_page pages x ≡ true → At x pages
has_page-At [] x h = cc
has_page-At (y ∷ pages) x h = elim (Bool-cases (y == x)) [
  | inl e ↦ record {
    before = [];
    after = pages;
    splits = ap (λ (z : ℕ). z ∷ pages) ((==_iff y x).0 e);
    first = tt;
  }
  | inr e ↦
      At-cons y x pages (λ same. cc (e, (==_iff y x).1 same)) (has_page-At pages x (ground arith))
]

pub move_right-neighbours :
    (before after : List ℕ) (x y : ℕ)
    → IsAbsent x before
    → move_right x (before ++ (x ∷ y ∷ after)) ≡ before ++ (y ∷ x ∷ after)
move_right-neighbours [] after x y h = ground arith
move_right-neighbours (b ∷ []) after x y h = grind (arith, h.0)
move_right-neighbours (b ∷ c ∷ before) after x y h =
    grind (arith, h.0, move_right-neighbours (c ∷ before) after x y h.1)

pub move_right-end :
    (before : List ℕ) (x : ℕ)
    → IsAbsent x before
    → move_right x (before ++ (x ∷ [])) ≡ before ++ (x ∷ [])
move_right-end [] x h = refl
move_right-end (b ∷ []) x h = grind (arith, h.0)
move_right-end (b ∷ c ∷ before) x h = grind (arith, h.0, move_right-end (c ∷ before) x h.1)

-- The page to the left of a page that is not the first.
pub move_left-neighbours :
    (before after : List ℕ) (x y : ℕ)
    → IsAbsent x before
    → y ≢ x
    → move_left x (before ++ (y ∷ x ∷ after)) ≡ before ++ (x ∷ y ∷ after)
move_left-neighbours [] after x y h n = ground arith
move_left-neighbours (b ∷ []) after x y h n = grind (arith, n)
move_left-neighbours (b ∷ c ∷ before) after x y h n =
    grind (arith, h.1.0, move_left-neighbours (c ∷ before) after x y h.1 n)

pub move_left-absent :
    (y x : ℕ) (pages : List ℕ) → IsAbsent x pages → move_left x (y ∷ pages) ≡ y ∷ pages
move_left-absent y x [] h = refl
move_left-absent y x (z ∷ pages) h = grind (arith, h.0, move_left-absent z x pages h.1)

-- The last page of some.
pub record Snoc (pages : List ℕ) : Type 0 where
  pub init : List ℕ
  pub last : ℕ
  pub joins : pages ≡ init ++ (last ∷ [])

pub snoc : (b : ℕ) (pages : List ℕ) → Snoc (b ∷ pages)
snoc b [] = record { init = []; last = b; joins = refl }
snoc b (c ∷ pages) =
    let s = snoc c pages in record { init = b ∷ s.init; last = s.last; joins = ap (◌∷◌ b) s.joins }
