-- ===== src/View/Edit.antt =====
-- Adding and removing pages, and moves at the ends: `CImageItemContainer` of
-- gui-app/src/Ui/ImageView.cpp.
use sane_in_the_membrane.Common.{
  ℕ, suc, ◌+◌, ◌^◌, ◌<◌, ◌≡◌, refl, ap, ◌∙◌, List, [], ◌∷◌, ◌++◌, length, arith, length-append,
  drop,
}
use sane_in_the_membrane.Common.Exec.{ok}
use sane_in_the_membrane.View.Layout.{BoxLayout, erase}
use sane_in_the_membrane.View.Container.{
  Container, occurrences, all_down, MoveDirection, left, right, move_image, add_image, add_item,
  remove_image, remove_item,
}
use sane_in_the_membrane.View.Numbers.{
  IsNumberedFrom, IsAbsent, IsAbsent-below, IsAbsent-above, erase-absent, erase-middle,
  occurrences-middle, drop-middle, all_down-earlier, IsNumberedFrom-append, IsNumberedFrom-left,
  IsNumberedFrom-right, IsNumberedFrom-set, IsNumberedFrom-all_down, set_page_number_self,
}

-- A page with no neighbour on the side given.
abbrev pub at_end : MoveDirection → ℕ → List ℕ → List ℕ
at_end left x pages = x ∷ pages
at_end right x pages = pages ++ (x ∷ [])

module _ (q : BoxLayout) (c : Container q) where
  open q use {widgets, count, count_lem, widgets-add_widget, widgets-remove_widget}

  -- The pages on screen, numbered from 1 in their order.
  abbrev pub IsShowing : List ℕ → Type 0
  IsShowing pages = (widgets c.layout ≡ pages) × IsNumberedFrom 1 pages c.numbers

  -- Moving the first page to the left or the last to the right changes nothing.
  pub move_image-ends :
      (direction : MoveDirection) (pages : List ℕ) (x : ℕ)
      → length pages + 2 < 2 ^ 64
      → IsShowing (at_end direction x pages)
      → move_image q c x direction ≡ ok c
  unfolding move_image
  move_image-ends left pages x small s = grind (arith, s.1.0)
  move_image-ends right pages x small s =
      let last = IsNumberedFrom-right 1 pages (x ∷ []) c.numbers s.1 in
      let counted : count c.layout ≡ length pages + 1 =
        omega (arith, count_lem c.layout, ap length s.0, length-append pages (x ∷ [])) in
      grind (arith, last.0, counted, small)

  -- A new page is shown last, with the next number.
  pub add_image-IsShowing :
      (pages : List ℕ) (item : ℕ)
      → IsShowing pages
      → length c.items ≡ length pages
      → IsAbsent item pages
      → (widgets (add_image q c item).layout ≡ pages ++ (item ∷ []))
        × IsNumberedFrom 1 (pages ++ (item ∷ [])) (add_image q c item).numbers
        × ((add_image q c item).items ≡ c.items ++ (item ∷ []))
  unfolding add_image add_item
  add_image-IsShowing pages item s counts absent = (
    widgets-add_widget c.layout item ∙ rw (s.0, erase-absent pages item absent) refl,
    IsNumberedFrom-append 1 pages (item ∷ []) _
        (IsNumberedFrom-set 1 pages c.numbers item (length c.items + 1) absent s.1)
        (set_page_number_self c.numbers item (length c.items + 1) ∙ omega (arith, counts), tt),
    refl,
  )

module _ (q : BoxLayout) (c : Container q) (before after : List ℕ) (x : ℕ)
    (s : IsShowing q c (before ++ (x ∷ after))) (in_order : c.items ≡ before ++ (x ∷ after))
    (small : 2 + length before + length after < 2 ^ 64) where
  open q use {widgets, remove_widget, widgets-remove_widget}

  x_after : IsNumberedFrom (1 + length before) (x ∷ after) c.numbers
  x_after = IsNumberedFrom-right 1 before (x ∷ after) c.numbers s.1

  x-IsAbsent : IsAbsent x before × IsAbsent x after
  x-IsAbsent = (
    IsAbsent-above 1 before c.numbers x (IsNumberedFrom-left 1 before (x ∷ after) c.numbers s.1)
        (omega (arith, x_after.0)),
    IsAbsent-below _ after c.numbers x x_after.1 (omega (arith, x_after.0)),
  )

  once : occurrences c.items x ≡ 1
  once = rw in_order (occurrences-middle before after x x-IsAbsent.0 x-IsAbsent.1)

  rest : drop (c.numbers x) c.items ≡ after
  rest = ap (λ n. drop n c.items) (x_after.0 ∙ first) ∙ rw in_order (drop-middle before after x)
    where
      first : 1 + length before ≡ suc (length before)
      first = omega arith

  abbrev removed : Container q
  removed = record {
    items = erase c.items x;
    layout = remove_widget c.layout x;
    numbers = all_down after c.numbers;
  }

  -- Removing a page of a document in which no page was moved leaves the others in their order,
  -- numbered from 1, both on screen and in the vector of items; the assertion holds.
  pub remove_image-IsShowing :
      (c' : Container q) × (remove_image q c x ≡ ok c')
      × IsShowing q c' (before ++ after)
      × (c'.items ≡ before ++ after)
  unfolding remove_image remove_item
  remove_image-IsShowing = (
    removed,
    simp (rest, once),
    (
      widgets-remove_widget c.layout x
          ∙ rw s.0 (erase-middle before after x x-IsAbsent.0 x-IsAbsent.1),
      IsNumberedFrom-append 1 before after removed.numbers
          (all_down-earlier 1 (suc (1 + length before)) before after c.numbers
            (IsNumberedFrom-left 1 before (x ∷ after) c.numbers s.1) x_after.1 (omega arith))
          (IsNumberedFrom-all_down (1 + length before) after c.numbers (omega (arith, small))
            x_after.1),
    ),
    rw (in_order) (erase-middle before after x x-IsAbsent.0 x-IsAbsent.1),
  )
