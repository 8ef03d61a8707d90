-- ===== src/Window/Turned.antt =====
-- A page that was turned and mirrored by its buttons (`CImageItem::setup_layout_and_connections` of
-- gui-app/src/Ui/ImageView.cpp), and where its picture lies in the document.
mod Runs
use mathlib.Core.Path.{subst}
use sane_in_the_membrane.Common.{
  ◌∙◌, ap, ℕ, suc, ◌+◌, ◌≤◌, ◌≡◌, ◌⊎◌, inl, inr, ◌↔◌, refl, List, [], ◌∷◌, Option, none, some, Bool,
  true, false, not, arith, if◌then◌else◌,
}
use sane_in_the_membrane.Common.Int.{
  ℤ, pos, negsuc, pos_part, neg_part, ◌+ℤ◌, ◌-ℤ◌, ◌*ℤ◌, ◌≤ℤ◌, min_element, max_element, int_laws,
}
use sane_in_the_membrane.Pdf.Geometry.{
  Transform, PdfMatrix, matrix, Layout, layout_image, at_corners,
}
use sane_in_the_membrane.Pdf.Preview.{
  place, lower, upper, turned_x, turned_y, preview_width, preview_height, preview_x, preview_y,
  layout_image-preview,
}
use sane_in_the_membrane.Pdf.Spans.{
  IsUnit, Spans, IsCoordinate, Spans-unit, Within, Spans-Within, Within-flip, one_times,
  minus_times, zero_times, ↔_sym, ↔_trans,
}
use sane_in_the_membrane.Window.{ItemButton, rotate_left, rotate_right, mirror}

IsUnit-flip : (a : ℤ) → IsUnit a → IsUnit (pos 0 -ℤ a)
IsUnit-flip a (inl e) = inr (omega int_laws)
IsUnit-flip a (inr e) = inl (omega int_laws)

-- The transform mixes the coordinates or not, and keeps lengths.
abbrev pub IsTurned : Bool → Transform → Type 0
IsTurned false t = IsUnit t.m11 × (t.m12 ≡ pos 0) × (t.m21 ≡ pos 0) × IsUnit t.m22
IsTurned true t = (t.m11 ≡ pos 0) × IsUnit t.m12 × IsUnit t.m21 × (t.m22 ≡ pos 0)

-- What Qt documents of `QTransform::rotate` by a right angle, to either side, and of `scale(-1, 1)`.
pub record IsQtTransform (turned : ItemButton → Transform → Transform) : Type 0 where
  pub left :
      (t : Transform)
      → turned rotate_left t
        ≡ record t { m11 = pos 0 -ℤ t.m21; m12 = pos 0 -ℤ t.m22; m21 = t.m11; m22 = t.m12 }
  pub right :
      (t : Transform)
      → turned rotate_right t
        ≡ record t { m11 = t.m21; m12 = t.m22; m21 = pos 0 -ℤ t.m11; m22 = pos 0 -ℤ t.m12 }
  pub mirrored :
      (t : Transform) → turned mirror t ≡ record t { m11 = pos 0 -ℤ t.m11; m12 = pos 0 -ℤ t.m12 }

abbrev pub identity : Transform
identity = record { m11 = pos 1; m12 = pos 0; m21 = pos 0; m22 = pos 1; dx = pos 0; dy = pos 0 }

-- The transform after clicks on the buttons, and whether they left the page on its side.
abbrev pub clicked : (ItemButton → Transform → Transform) → List ItemButton → Transform → Transform
clicked turned [] t = t
clicked turned (b ∷ buttons) t = clicked turned buttons (turned b t)

abbrev pub is_turn : ItemButton → Bool
is_turn rotate_left = true
is_turn rotate_right = true
is_turn mirror = false

abbrev pub lies_on_side : List ItemButton → Bool → Bool
lies_on_side [] side = side
lies_on_side (b ∷ buttons) side = lies_on_side buttons (if is_turn b then not side else side)

neg_zero : (a : ℤ) → a ≡ pos 0 → pos 0 -ℤ a ≡ pos 0
neg_zero a e = omega int_laws

module _ (turned : ItemButton → Transform → Transform) (qt : IsQtTransform turned) where
  turned-IsTurned :
      (b : ItemButton) (side : Bool) (t : Transform)
      → IsTurned side t
      → IsTurned (if is_turn b then not side else side) (turned b t)
  turned-IsTurned rotate_left false t (u, z, z', u') =
      rw (qt.left t) (neg_zero t.m21 z', IsUnit-flip t.m22 u', u, z)
  turned-IsTurned rotate_left true t (z, u, u', z') =
      rw (qt.left t) (IsUnit-flip t.m21 u', neg_zero t.m22 z', z, u)
  turned-IsTurned rotate_right false t (u, z, z', u') =
      rw (qt.right t) (z', u', IsUnit-flip t.m11 u, neg_zero t.m12 z)
  turned-IsTurned rotate_right true t (z, u, u', z') =
      rw (qt.right t) (u', z', neg_zero t.m11 z, IsUnit-flip t.m12 u)
  turned-IsTurned mirror false t (u, z, z', u') =
      rw (qt.mirrored t) (IsUnit-flip t.m11 u, neg_zero t.m12 z, z', u')
  turned-IsTurned mirror true t (z, u, u', z') =
      rw (qt.mirrored t) (neg_zero t.m11 z, IsUnit-flip t.m12 u, u', z')

  clicked-IsTurned :
      (buttons : List ItemButton) (side : Bool) (t : Transform)
      → IsTurned side t
      → IsTurned (lies_on_side buttons side) (clicked turned buttons t)
  clicked-IsTurned [] side t h = h
  clicked-IsTurned (b ∷ buttons) side t h =
      clicked-IsTurned buttons _ (turned b t) (turned-IsTurned b side t h)

module _ (w h : ℕ) where
  IsCoordinate-x : IsCoordinate (pos w) (pos h) (pos w) (λ x y. x)
  IsCoordinate-x = record { first = refl; last = refl; right = omega int_laws; up = omega int_laws }

  IsCoordinate-y : IsCoordinate (pos w) (pos h) (pos h) (λ x y. y)
  IsCoordinate-y = record { first = refl; last = refl; right = omega int_laws; up = omega int_laws }

  abbrev IsFilling : Bool → Transform → Type 0
  IsFilling false t =
      Spans (pos w) (pos h) (turned_x t) (pos w) (λ x y. x)
      × Spans (pos w) (pos h) (turned_y t) (pos h) (λ x y. y)
  IsFilling true t =
      Spans (pos w) (pos h) (turned_x t) (pos h) (λ x y. y)
      × Spans (pos w) (pos h) (turned_y t) (pos w) (λ x y. x)

  IsTurned-IsFilling : (side : Bool) (t : Transform) → IsTurned side t → IsFilling side t
  IsTurned-IsFilling false t (u, z, z', u') = (
    Spans-unit (pos w) (pos h) (pos w) (λ x y. x) (turned_x t) IsCoordinate-x t.m11 u
        (λ x y. omega (int_laws, zero_times t.m21 y z')),
    Spans-unit (pos w) (pos h) (pos h) (λ x y. y) (turned_y t) IsCoordinate-y t.m22 u'
        (λ x y. omega (int_laws, zero_times t.m12 x z)),
  )
  IsTurned-IsFilling true t (z, u, u', z') = (
    Spans-unit (pos w) (pos h) (pos h) (λ x y. y) (turned_x t) IsCoordinate-y t.m21 u'
        (λ x y. omega (int_laws, zero_times t.m11 x z)),
    Spans-unit (pos w) (pos h) (pos w) (λ x y. x) (turned_y t) IsCoordinate-x t.m12 u
        (λ x y. omega (int_laws, zero_times t.m22 y z')),
  )

-- Whether a point lies on a sheet of a size, the edges included.
abbrev pub IsInside : ℤ → ℤ → ℤ × ℤ → Type 0
IsInside width height (x, y) = Within width x × Within height y

Within-same : (l a b : ℤ) → a ≡ b → Within l b ↔ Within l a
Within-same l a b e = omega int_laws

module _ (width height w h x y : ℤ) (at : ℤ × ℤ) where
  IsInside-straight :
      width ≡ w
      → height ≡ h
      → Within w x ↔ Within w at.0
      → Within h y ↔ Within h at.1
      → IsInside w h (x, y) ↔ IsInside width height at
  IsInside-straight e e' i j = rw (e, e') (λ p. (i.0 p.0, j.0 p.1), λ p. (i.1 p.0, j.1 p.1))

  IsInside-crossed :
      width ≡ h
      → height ≡ w
      → Within w x ↔ Within w at.1
      → Within h y ↔ Within h at.0
      → IsInside w h (x, y) ↔ IsInside width height at
  IsInside-crossed e e' i j = rw (e, e') (λ p. (j.0 p.1, i.0 p.0), λ p. (i.1 p.1, j.1 p.0))

module _ (w h : ℕ) (t : Transform) (x y : ℤ) where
  placed-IsInside :
      (side : Bool)
      → IsFilling w h side t
      → let l = layout_image (some (matrix t)) (pos w) (pos h) in
        (l.width ≡ pos (if side then h else w))
        × (l.height ≡ pos (if side then w else h))
        × (IsInside (pos w) (pos h) (x, pos h -ℤ y)
            ↔ IsInside l.width l.height (place l.concat x (pos h -ℤ y)))
  placed-IsInside false (s, s') =
      let (e, e', d, p) = layout_image-preview t (pos w) (pos h) x y in
      let page = layout_image (some (matrix t)) (pos w) (pos h) in
      let at = place page.concat x (pos h -ℤ y) in
      let across = Spans-Within (pos w) (pos h) (pos w) (turned_x t) (λ x y. x) x y s in
      let down = Spans-Within (pos w) (pos h) (pos h) (turned_y t) (λ x y. y) x y s' in
      let bottom = Within-flip (pos h) y (pos h -ℤ y) refl in
      let flipped =
        Within-flip (pos h) (preview_y t (pos w) (pos h) x y) at.1
          (p.1 ∙ ap (λ n. n -ℤ preview_y t (pos w) (pos h) x y) s'.extent) in
      (
        e ∙ s.extent,
        e' ∙ s'.extent,
        IsInside-straight page.width page.height (pos w) (pos h) x (pos h -ℤ y) at (e ∙ s.extent)
            (e' ∙ s'.extent) (↔_trans (↔_sym across) (Within-same (pos w) at.0 _ p.0))
            (↔_trans (↔_sym bottom) (↔_trans (↔_sym down) flipped)),
      )
  placed-IsInside true (s, s') =
      let (e, e', d, p) = layout_image-preview t (pos w) (pos h) x y in
      let page = layout_image (some (matrix t)) (pos w) (pos h) in
      let at = place page.concat x (pos h -ℤ y) in
      let across = Spans-Within (pos w) (pos h) (pos h) (turned_x t) (λ x y. y) x y s in
      let down = Spans-Within (pos w) (pos h) (pos w) (turned_y t) (λ x y. x) x y s' in
      let bottom = Within-flip (pos h) y (pos h -ℤ y) refl in
      let flipped =
        Within-flip (pos w) (preview_y t (pos w) (pos h) x y) at.1
          (p.1 ∙ ap (λ n. n -ℤ preview_y t (pos w) (pos h) x y) s'.extent) in
      (
        e ∙ s.extent,
        e' ∙ s'.extent,
        IsInside-crossed page.width page.height (pos w) (pos h) x (pos h -ℤ y) at (e ∙ s.extent)
            (e' ∙ s'.extent) (↔_trans (↔_sym down) flipped)
            (↔_trans (↔_sym bottom) (↔_trans (↔_sym across) (Within-same (pos h) at.0 _ p.0))),
      )

-- However a page was turned and mirrored by its buttons, its picture fills its page in the document
-- exactly: if the buttons do what Qt documents, the page has the size of the picture, with the sides
-- exchanged if the page lies on its side, and a point, measured from the bottom left, lies on the
-- picture just when the place where it is drawn lies on the page.
pub layout_image-clicked :
    (turned : ItemButton → Transform → Transform) (buttons : List ItemButton) (w h : ℕ) (x y : ℤ)
    → IsQtTransform turned
    → let side = lies_on_side buttons false in
      let l = layout_image (some (matrix (clicked turned buttons identity))) (pos w) (pos h) in
      (l.width ≡ pos (if side then h else w))
      × (l.height ≡ pos (if side then w else h))
      × (IsInside (pos w) (pos h) (x, y) ↔ IsInside l.width l.height (place l.concat x y))
layout_image-clicked turned buttons w h x y qt =
    let side = lies_on_side buttons false in
    let t = clicked turned buttons identity in
    let page = layout_image (some (matrix t)) (pos w) (pos h) in
    let filled = placed-IsInside w h t x (pos h -ℤ y) side (
      IsTurned-IsFilling w h side t
        (clicked-IsTurned turned qt buttons false identity (inl refl, refl, refl, inl refl))) in
    let back : pos h -ℤ (pos h -ℤ y) ≡ y = omega int_laws in
    (
      filled.0,
      filled.1,
      subst
          (λ z.
            IsInside (pos w) (pos h) (x, z)
            ↔ IsInside page.width page.height (place page.concat x z))
          back filled.2,
    )
