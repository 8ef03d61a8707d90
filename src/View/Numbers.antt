-- ===== src/View/Numbers.antt =====
-- Page numbers that rise by one along a list of items, and the lists of gui-app/src/Ui/ImageView.cpp
-- under erasing and inserting.
use sane_in_the_membrane.Common.{
  ℕ, suc, ◌+◌, ◌^◌, ◌<◌, ◌≤◌, ◌≡◌, ◌≢◌, refl, ap, ◌∙◌, List, [], ◌∷◌, ◌++◌, length, drop, arith,
  All, get_elem?, some,
}
use mathlib.Core.Path.{subst}
use sane_in_the_membrane.View.Layout.{erase, insert_at}
use sane_in_the_membrane.View.Container.{
  PageNumbers, set_page_number, occurrences, all_down, page_below,
}

abbrev pub IsNumberedFrom : ℕ → List ℕ → PageNumbers → Type 0
IsNumberedFrom k [] numbers = Unit {0}
IsNumberedFrom k (a ∷ items) numbers = (numbers a ≡ k) × IsNumberedFrom (suc k) items numbers

abbrev pub IsAbsent : ℕ → List ℕ → Type 0
IsAbsent a items = All (λ b. b ≢ a) items

pub IsAbsent-below :
    (k : ℕ) (items : List ℕ) (numbers : PageNumbers) (a : ℕ)
    → IsNumberedFrom k items numbers
    → numbers a < k
    → IsAbsent a items
IsAbsent-below k [] numbers a n h = tt
IsAbsent-below k (b ∷ items) numbers a n h = (
  λ e. omega (arith, n.0, ap numbers e),
  IsAbsent-below (suc k) items numbers a n.1 (omega arith),
)

pub IsAbsent-above :
    (k : ℕ) (items : List ℕ) (numbers : PageNumbers) (a : ℕ)
    → IsNumberedFrom k items numbers
    → k + length items ≤ numbers a
    → IsAbsent a items
IsAbsent-above k [] numbers a n h = tt
IsAbsent-above k (b ∷ items) numbers a n h = (
  λ e. omega (arith, n.0, ap numbers e),
  IsAbsent-above (suc k) items numbers a n.1 (omega arith),
)

pub erase-absent : (items : List ℕ) (a : ℕ) → IsAbsent a items → erase items a ≡ items
erase-absent [] a h = refl
erase-absent (b ∷ items) a h = grind (arith, erase-absent items a h.1, h.0)

-- An item that stands in one place only.
pub erase-middle :
    (xs ys : List ℕ) (a : ℕ) → IsAbsent a xs → IsAbsent a ys → erase (xs ++ (a ∷ ys)) a ≡ xs ++ ys
erase-middle [] ys a hx hy = grind (arith, erase-absent ys a hy)
erase-middle (b ∷ xs) ys a hx hy = grind (arith, erase-middle xs ys a hx.1 hy, hx.0)

pub erase-second :
    (xs ys : List ℕ) (a b : ℕ)
    → b ≢ a
    → IsAbsent a xs
    → IsAbsent a ys
    → erase (xs ++ (b ∷ a ∷ ys)) a ≡ xs ++ (b ∷ ys)
erase-second [] ys a b h hx hy = grind (arith, erase-absent ys a hy, h)
erase-second (c ∷ xs) ys a b h hx hy = grind (arith, erase-second xs ys a b h hx.1 hy, hx.0)

pub insert_at-second :
    (xs ys : List ℕ) (a b : ℕ) → insert_at (suc (length xs)) a (xs ++ (b ∷ ys)) ≡ xs ++ (b ∷ a ∷ ys)
insert_at-second [] [] a b = refl
insert_at-second [] (y ∷ ys) a b = refl
insert_at-second (x ∷ xs) ys a b = ap (◌∷◌ x) (insert_at-second xs ys a b)

pub get_elem?-second :
    (xs ys : List ℕ) (a b : ℕ) → get_elem? (xs ++ (b ∷ a ∷ ys)) (suc (length xs)) ≡ some a
get_elem?-second [] ys a b = refl
get_elem?-second (x ∷ xs) ys a b = get_elem?-second xs ys a b

pub insert_at-append :
    (xs ys : List ℕ) (a : ℕ) → insert_at (length xs) a (xs ++ ys) ≡ xs ++ (a ∷ ys)
insert_at-append [] [] a = refl
insert_at-append [] (y ∷ ys) a = refl
insert_at-append (x ∷ xs) ys a = ap (◌∷◌ x) (insert_at-append xs ys a)

pub occurrences-absent : (items : List ℕ) (a : ℕ) → IsAbsent a items → occurrences items a ≡ 0
occurrences-absent [] a h = refl
occurrences-absent (b ∷ items) a h = grind (arith, occurrences-absent items a h.1, h.0)

pub occurrences-middle :
    (xs ys : List ℕ) (a : ℕ) → IsAbsent a xs → IsAbsent a ys → occurrences (xs ++ (a ∷ ys)) a ≡ 1
occurrences-middle [] ys a hx hy = grind (arith, occurrences-absent ys a hy)
occurrences-middle (b ∷ xs) ys a hx hy = grind (arith, occurrences-middle xs ys a hx.1 hy, hx.0)

pub drop-middle : (xs ys : List ℕ) (a : ℕ) → drop (suc (length xs)) (xs ++ (a ∷ ys)) ≡ ys
drop-middle [] ys a = refl
drop-middle (x ∷ xs) ys a = drop-middle xs ys a

renumber :
    {k k' : ℕ} (items : List ℕ) (numbers : PageNumbers)
    → k ≡ k'
    → IsNumberedFrom k items numbers
    → IsNumberedFrom k' items numbers
renumber items numbers e h = subst (λ j. IsNumberedFrom j items numbers) e h

pub IsNumberedFrom-append :
    (k : ℕ) (xs ys : List ℕ) (numbers : PageNumbers)
    → IsNumberedFrom k xs numbers
    → IsNumberedFrom (k + length xs) ys numbers
    → IsNumberedFrom k (xs ++ ys) numbers
IsNumberedFrom-append k [] ys numbers h h' = renumber ys numbers (omega arith) h'
IsNumberedFrom-append k (x ∷ xs) ys numbers h h' =
    (h.0, IsNumberedFrom-append (suc k) xs ys numbers h.1 (renumber ys numbers (omega arith) h'))

pub IsNumberedFrom-left :
    (k : ℕ) (xs ys : List ℕ) (numbers : PageNumbers)
    → IsNumberedFrom k (xs ++ ys) numbers
    → IsNumberedFrom k xs numbers
IsNumberedFrom-left k [] ys numbers h = tt
IsNumberedFrom-left k (x ∷ xs) ys numbers h = (h.0, IsNumberedFrom-left (suc k) xs ys numbers h.1)

pub IsNumberedFrom-right :
    (k : ℕ) (xs ys : List ℕ) (numbers : PageNumbers)
    → IsNumberedFrom k (xs ++ ys) numbers
    → IsNumberedFrom (k + length xs) ys numbers
IsNumberedFrom-right k [] ys numbers h = renumber ys numbers (omega arith) h
IsNumberedFrom-right k (x ∷ xs) ys numbers h =
    renumber ys numbers (omega arith) (IsNumberedFrom-right (suc k) xs ys numbers h.1)

pub IsNumberedFrom-set :
    (k : ℕ) (items : List ℕ) (numbers : PageNumbers) (a n : ℕ)
    → IsAbsent a items
    → IsNumberedFrom k items numbers
    → IsNumberedFrom k items (set_page_number numbers a n)
IsNumberedFrom-set k [] numbers a n absent h = tt
IsNumberedFrom-set k (b ∷ items) numbers a n absent h =
    (grind (arith, absent.0, h.0), IsNumberedFrom-set (suc k) items numbers a n absent.1 h.1)

pub all_down-absent :
    (items : List ℕ) (numbers : PageNumbers) (a : ℕ)
    → IsAbsent a items
    → all_down items numbers a ≡ numbers a
all_down-absent [] numbers a absent = refl
all_down-absent (b ∷ items) numbers a absent =
    all_down-absent items _ a absent.1 ∙ grind (arith, absent.0)

pub page_below-suc : (k : ℕ) → suc k < 2 ^ 64 → page_below (suc k) ≡ k
page_below-suc k h = omega arith

pub set_page_number_self : (numbers : PageNumbers) (a n : ℕ) → set_page_number numbers a n a ≡ n
set_page_number_self numbers a n = grind arith

-- One page down each, the first of them above page 0.
pub IsNumberedFrom-all_down :
    (k : ℕ) (items : List ℕ) (numbers : PageNumbers)
    → suc k + length items < 2 ^ 64
    → IsNumberedFrom (suc k) items numbers
    → IsNumberedFrom k items (all_down items numbers)
IsNumberedFrom-all_down k [] numbers h n = tt
IsNumberedFrom-all_down k (b ∷ items) numbers h n =
    let absent = IsAbsent-below (suc (suc k)) items numbers b n.1 (omega (arith, n.0)) in
    (
      all_down-absent items _ b absent
          ∙ set_page_number_self numbers b _
          ∙ ap page_below n.0
          ∙ page_below-suc k (omega arith),
      IsNumberedFrom-all_down (suc k) items _ (omega arith)
          (IsNumberedFrom-set (suc (suc k)) items numbers b _ absent n.1),
    )

-- Items with smaller numbers keep them.
pub all_down-earlier :
    (j k : ℕ) (before after : List ℕ) (numbers : PageNumbers)
    → IsNumberedFrom j before numbers
    → IsNumberedFrom k after numbers
    → j + length before ≤ k
    → IsNumberedFrom j before (all_down after numbers)
all_down-earlier j k [] after numbers nb na h = tt
all_down-earlier j k (b ∷ before) after numbers nb na h = (
  all_down-absent after numbers b (IsAbsent-below k after numbers b na (omega (arith, nb.0)))
      ∙ nb.0,
  all_down-earlier (suc j) k before after numbers nb.1 na (omega arith),
)
