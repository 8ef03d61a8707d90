-- ===== src/View/Document.antt =====
-- The pages that a page container stands for, and edits of both: the operations of
-- `CImageItemContainer` of gui-app/src/Ui/ImageView.cpp that a user's click or a finished scan calls.
use sane_in_the_membrane.Common.{
  ℕ, ◌+◌, ◌^◌, ◌<◌, ◌≡◌, Bool, true, false, List, [], ◌∷◌, ◌++◌, ◌==◌, ◌||◌, length, if◌then◌else◌,
}
use sane_in_the_membrane.Common.Exec.{Exec, ok, ◌>>=◌}
use sane_in_the_membrane.View.Layout.{BoxLayout, erase}
use sane_in_the_membrane.View.Container.{
  Container, occurrences, MoveDirection, left, right, add_image, remove_image, move_image,
}
use sane_in_the_membrane.View.Numbers.{IsNumberedFrom, IsAbsent}

pub data Edit : Type 0 where
  add remove : ℕ → Edit
  move : ℕ → MoveDirection → Edit

module _ (q : BoxLayout) where
  unfoldable pub edit : Edit → Container q → Exec (Container q)
  edit (add item) c = ok (add_image q c item)
  edit (remove item) c = remove_image q c item
  edit (move item direction) c = move_image q c item direction

  unfoldable pub edit_all : List Edit → Container q → Exec (Container q)
  unfolding edit
  edit_all [] c = ok c
  edit_all (e ∷ es) c = edit e c >>= λ c'. edit_all es c'

-- The specification: pages in their order, and whether one was moved.
pub record PageList : Type 0 where
  pub pages : List ℕ
  pub moved : Bool

-- A page changes places with its right neighbour, or with its left one, if it has one.
abbrev pub move_right : ℕ → List ℕ → List ℕ
move_right x [] = []
move_right x (y ∷ []) = y ∷ []
move_right x (y ∷ z ∷ pages) =
    let rest = move_right x (z ∷ pages) in if y == x then z ∷ y ∷ pages else y ∷ rest

abbrev pub move_left : ℕ → List ℕ → List ℕ
move_left x [] = []
move_left x (y ∷ []) = y ∷ []
move_left x (y ∷ z ∷ pages) =
    let rest = move_left x (z ∷ pages) in if z == x then z ∷ y ∷ pages else y ∷ rest

abbrev pub move_page : MoveDirection → ℕ → List ℕ → List ℕ
move_page left x pages = move_left x pages
move_page right x pages = move_right x pages

abbrev pub apply : Edit → PageList → PageList
apply (add x) d = record d { pages = d.pages ++ (x ∷ []) }
apply (remove x) d = record d { pages = erase d.pages x }
apply (move x direction) d = record { pages = move_page direction x d.pages; moved = true }

abbrev pub apply_all : List Edit → PageList → PageList
apply_all [] d = d
apply_all (e ∷ es) d = apply_all es (apply e d)

abbrev pub has_page : List ℕ → ℕ → Bool
has_page [] x = false
has_page (y ∷ pages) x = y == x || has_page pages x

-- A new page is new, and a page that is moved or removed is there; a page is removed only from a
-- document in which none was moved.
abbrev pub Allowed : Edit → PageList → Type 0
Allowed (add x) d = IsAbsent x d.pages
Allowed (remove x) d = (has_page d.pages x ≡ true) × (d.moved ≡ false)
Allowed (move x direction) d = has_page d.pages x ≡ true

abbrev pub AllowedAll : List Edit → PageList → Type 0
AllowedAll [] d = Unit
AllowedAll (e ∷ es) d = Allowed e d × (length d.pages + 3 < 2 ^ 64) × AllowedAll es (apply e d)

-- The same pages, as often.
abbrev pub SameItems : List ℕ → List ℕ → Type 0
SameItems items pages =
    (length items ≡ length pages) × ((a : ℕ) → occurrences items a ≡ occurrences pages a)

abbrev pub InOrder : Bool → List ℕ → List ℕ → Type 0
InOrder true items pages = SameItems items pages
InOrder false items pages = items ≡ pages

-- The container shows the pages in their order, numbered from 1, and its vector of items has them
-- all, in that order as long as none was moved.
pub record Implements (q : BoxLayout) (c : Container q) (d : PageList) : Type 0 where
  pub shown : q.widgets c.layout ≡ d.pages
  pub numbered : IsNumberedFrom 1 d.pages c.numbers
  pub kept : InOrder d.moved c.items d.pages
