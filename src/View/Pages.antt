-- ===== src/View/Pages.antt =====
-- What the operations of `CImageItemContainer` (gui-app/src/Ui/ImageView.cpp) do to the pages on
-- screen and to their numbers.
use sane_in_the_membrane.Common.{
  ℕ, suc, ◌+◌, ◌^◌, ◌<◌, ◌≤◌, ◌≡◌, ◌≢◌, refl, ap, ◌∙◌, sym, List, ◌∷◌, ◌++◌, length, arith,
  get_elem?-append, length-append,
}
use sane_in_the_membrane.Common.Exec.{ok}
use sane_in_the_membrane.View.Layout.{BoxLayout}
use sane_in_the_membrane.View.Container.{
  Container, set_page_number, left, right, move_image, swap_pages,
}
use sane_in_the_membrane.View.Numbers.{
  IsNumberedFrom, IsAbsent, IsAbsent-below, IsAbsent-above, insert_at-append, erase-second,
  insert_at-second, get_elem?-second, IsNumberedFrom-append, IsNumberedFrom-left,
  IsNumberedFrom-right, IsNumberedFrom-set,
}

-- A page that has a neighbour on the side it moves to.
module _ (q : BoxLayout) (c : Container q) (item p : ℕ) where
  open q use {count}

  move_image-right :
      c.numbers item ≡ suc p
      → suc (suc p) ≤ count c.layout
      → suc (suc p) < 2 ^ 64
      → move_image q c item right ≡ swap_pages q c (suc p) p
  unfolding move_image
  move_image-right h there small = grind arith

  move_image-left :
      c.numbers item ≡ suc (suc p)
      → suc p ≤ count c.layout
      → move_image q c item left ≡ swap_pages q c (suc p) p
  unfolding move_image
  move_image-left h there = grind arith

-- Two neighbours behind `before` in a layout of numbered pages.
module _ (q : BoxLayout) (c : Container q) (before after : List ℕ) (x y : ℕ)
    (shows : q.widgets c.layout ≡ before ++ (x ∷ y ∷ after))
    (n : IsNumberedFrom 1 (before ++ (x ∷ y ∷ after)) c.numbers) where
  open q use {widgets, insert_widget, item_at, count, widgets-insert_widget, item_at_lem, count_lem}

  n_before : IsNumberedFrom 1 before c.numbers
  n_before = IsNumberedFrom-left 1 before (x ∷ y ∷ after) c.numbers n

  n_rest : IsNumberedFrom (1 + length before) (x ∷ y ∷ after) c.numbers
  n_rest = IsNumberedFrom-right 1 before (x ∷ y ∷ after) c.numbers n

  IsAbsent-before : (a : ℕ) → 1 + length before ≤ c.numbers a → IsAbsent a before
  IsAbsent-before a h = IsAbsent-above 1 before c.numbers a n_before h

  IsAbsent-after : (a : ℕ) → c.numbers a ≤ 2 + length before → IsAbsent a after
  IsAbsent-after a h = IsAbsent-below _ after c.numbers a n_rest.1.1 (omega arith)

  x_ne_y : x ≢ y
  x_ne_y e = omega (arith, n_rest.0, n_rest.1.0, ap c.numbers e)

  y_raised : widgets (insert_widget c.layout (length before) y) ≡ before ++ (y ∷ x ∷ after)
  y_raised =
      widgets-insert_widget c.layout (length before) y
      ∙ rw
          (
            shows,
            erase-second before after y x x_ne_y (IsAbsent-before y (omega (arith, n_rest.1.0)))
                (IsAbsent-after y (omega (arith, n_rest.1.0))),
          )
          (insert_at-append before (x ∷ after) y)

  x_lowered :
      widgets (insert_widget (insert_widget c.layout (length before) y) (suc (length before)) x)
      ≡ before ++ (y ∷ x ∷ after)
  x_lowered =
      widgets-insert_widget (insert_widget c.layout (length before) y) (suc (length before)) x
      ∙ rw
          (
            y_raised,
            erase-second before after x y (λ e. x_ne_y (sym e))
                (IsAbsent-before x (omega (arith, n_rest.0)))
                (IsAbsent-after x (omega (arith, n_rest.0))),
          )
          (insert_at-second before after x y)

  abbrev pub swapped : Container q
  swapped = record c {
    numbers = set_page_number (set_page_number c.numbers y (c.numbers x)) x (c.numbers y);
    layout = insert_widget (insert_widget c.layout (length before) y) (suc (length before)) x;
  }

  swap_pages-swapped : swap_pages q c (suc (length before)) (length before) ≡ ok swapped
  unfolding swap_pages
  swap_pages-swapped = simp (
    item_at_lem c.layout (suc (length before)),
    item_at_lem c.layout (length before),
    shows,
    get_elem?-second before after y x,
    get_elem?-append before (y ∷ after) x,
  )

  y_number : swapped.numbers y ≡ 1 + length before
  y_number = grind (arith, x_ne_y, n_rest.0)

  x_number : swapped.numbers x ≡ suc (1 + length before)
  x_number = grind (arith, n_rest.1.0)

  after_numbers : IsNumberedFrom (suc (suc (1 + length before))) after swapped.numbers
  after_numbers = IsNumberedFrom-set _ after _ x _ (IsAbsent-after x (omega (arith, n_rest.0))) (
      IsNumberedFrom-set _ after c.numbers y _ (IsAbsent-after y (omega (arith, n_rest.1.0)))
        n_rest.1.1)

  swapped-IsNumbered : IsNumberedFrom 1 (before ++ (y ∷ x ∷ after)) swapped.numbers
  swapped-IsNumbered =
      IsNumberedFrom-append 1 before (y ∷ x ∷ after) swapped.numbers
        (IsNumberedFrom-set 1 before _ x _ (IsAbsent-before x (omega (arith, n_rest.0))) (
          IsNumberedFrom-set 1 before _ y _ (IsAbsent-before y (omega (arith, n_rest.1.0)))
            n_before))
        (y_number, (x_number, after_numbers))

  module _ (small : 2 + length before + length after < 2 ^ 64) where
    counted : count c.layout ≡ 2 + length before + length after
    counted =
        omega (arith, count_lem c.layout, ap length shows, length-append before (x ∷ y ∷ after))

    -- Moving a page to the right, or its right neighbour to the left, exchanges the two on screen and
    -- leaves the pages numbered from 1 in the order on screen; the vector of items keeps its order.
    pub move_image-neighbours :
        (move_image q c x right ≡ ok swapped)
        × (move_image q c y left ≡ ok swapped)
        × (widgets swapped.layout ≡ before ++ (y ∷ x ∷ after))
        × IsNumberedFrom 1 (before ++ (y ∷ x ∷ after)) swapped.numbers
        × (swapped.items ≡ c.items)
    move_image-neighbours = (
      move_image-right q c x (length before) (omega (arith, n_rest.0)) (omega (arith, counted))
            (omega (arith, small))
          ∙ swap_pages-swapped,
      move_image-left q c y (length before) (omega (arith, n_rest.1.0)) (omega (arith, counted))
          ∙ swap_pages-swapped,
      x_lowered,
      swapped-IsNumbered,
      refl,
    )
