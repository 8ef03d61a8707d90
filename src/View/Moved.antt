-- ===== src/View/Moved.antt =====
-- Removing a page after a move: the loop of `CImageItemContainer::remove_image` in
-- gui-app/src/Ui/ImageView.cpp skips the first `page_number` items of the vector, which a move does
-- not reorder.
use sane_in_the_membrane.Common.{
  ℕ, ◌+◌, ◌^◌, ◌<◌, ◌≡◌, ◌≢◌, ap, ◌∙◌, sym, List, [], ◌∷◌, length, arith, drop,
}
use sane_in_the_membrane.Common.Exec.{ok, ◌>>=◌}
use sane_in_the_membrane.View.Layout.{BoxLayout, erase}
use sane_in_the_membrane.View.Container.{
  Container, occurrences, all_down, right, move_image, remove_image, remove_item,
}
use sane_in_the_membrane.View.Numbers.{
  IsAbsent, IsAbsent-below, erase-middle, occurrences-middle, all_down-absent,
}
use sane_in_the_membrane.View.Pages.{swapped, move_image-neighbours}
use sane_in_the_membrane.View.Edit.{IsShowing}

-- The pages y, x, z are numbered 1, 2, 3; the vector has x before y.
module _ (q : BoxLayout) (m : Container q) (after : List ℕ) (x y z : ℕ)
    (s : IsShowing q m (y ∷ x ∷ z ∷ after)) (kept : m.items ≡ x ∷ y ∷ z ∷ after) where
  open q use {widgets, remove_widget, widgets-remove_widget}

  -- The number of y is below that of x, and so on.
  apart : {a b : ℕ} → m.numbers a < m.numbers b → a ≢ b
  apart h e = omega (arith, ap m.numbers e)

  y-IsAbsent : IsAbsent y after
  y-IsAbsent = IsAbsent-below 4 after m.numbers y s.1.1.1.1 (omega (arith, s.1.0))

  x-IsAbsent : IsAbsent x after
  x-IsAbsent = IsAbsent-below 4 after m.numbers x s.1.1.1.1 (omega (arith, s.1.1.0))

  z-IsAbsent : IsAbsent z after
  z-IsAbsent = IsAbsent-below 4 after m.numbers z s.1.1.1.1 (omega (arith, s.1.1.1.0))

  y_ne_x : y ≢ x
  y_ne_x = apart (omega (arith, s.1.0, s.1.1.0))

  y_ne_z : y ≢ z
  y_ne_z = apart (omega (arith, s.1.0, s.1.1.1.0))

  x_ne_z : x ≢ z
  x_ne_z = apart (omega (arith, s.1.1.0, s.1.1.1.0))

  lowered : drop (m.numbers y) m.items ≡ y ∷ z ∷ after
  lowered = ap (λ n. drop n m.items) s.1.0 ∙ ap (drop 1) kept

  once : occurrences m.items y ≡ 1
  once = rw kept (
      occurrences-middle (x ∷ []) (z ∷ after) y ((λ e. y_ne_x (sym e)), tt)
        ((λ e. y_ne_z (sym e)), y-IsAbsent))

  z_number : all_down (y ∷ z ∷ after) m.numbers z ≡ 2
  z_number = all_down-absent after _ z z-IsAbsent ∙ grind (arith, y_ne_z, s.1.1.1.0)

  x_number : all_down (y ∷ z ∷ after) m.numbers x ≡ 2
  x_number =
      all_down-absent (y ∷ z ∷ after) m.numbers x (y_ne_x, ((λ e. x_ne_z (sym e)), x-IsAbsent))
      ∙ s.1.1.0

  remove_second :
      (c' : Container q) × (remove_image q m y ≡ ok c')
      × (widgets c'.layout ≡ x ∷ z ∷ after)
      × (c'.numbers x ≡ 2)
      × (c'.numbers z ≡ 2)
  unfolding remove_image remove_item
  remove_second = (
    record {
      items = erase m.items y;
      layout = remove_widget m.layout y;
      numbers = all_down (y ∷ z ∷ after) m.numbers;
    },
    simp (lowered, once),
    widgets-remove_widget m.layout y
        ∙ rw s.0 (
            erase-middle [] (x ∷ z ∷ after) y tt
              ((λ e. y_ne_x (sym e)), ((λ e. y_ne_z (sym e)), y-IsAbsent))),
    x_number,
    z_number,
  )

-- The first of three or more pages is moved to the right, and the page that is now the first is
-- removed: two pages then have the number 2, and the page on screen first is not page 1.
pub remove_image-move_image :
    (q : BoxLayout) (c : Container q) (after : List ℕ) (x y z : ℕ)
    → IsShowing q c (x ∷ y ∷ z ∷ after)
    → c.items ≡ x ∷ y ∷ z ∷ after
    → 3 + length after < 2 ^ 64
    → (c' : Container q) × ((move_image q c x right >>= λ moved. remove_image q moved y) ≡ ok c')
      × (q.widgets c'.layout ≡ x ∷ z ∷ after)
      × (c'.numbers x ≡ 2)
      × (c'.numbers z ≡ 2)
remove_image-move_image q c after x y z s in_order small =
    let (moves, _, shows, numbered, _) =
      move_image-neighbours q c [] (z ∷ after) x y s.0 s.1 (omega (arith, small)) in
    let (c', removes, shows', x2, z2) =
      remove_second q (swapped q c [] (z ∷ after) x y s.0 s.1) after x y z (shows, numbered)
        in_order in
    (c', ap (λ m. m >>= λ moved. remove_image q moved y) moves ∙ removes, shows', x2, z2)
