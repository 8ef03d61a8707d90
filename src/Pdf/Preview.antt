-- ===== src/Pdf/Preview.antt =====
-- The page of the document and the preview of it: `CPdf::add_image` of gui-app/src/Utils/Pdf/Pdf.cpp
-- and `CImageItem::set_pixmap` of gui-app/src/Ui/ImageView.cpp.
use sane_in_the_membrane.Common.{◌≡◌, refl, [], ◌∷◌, Option, none, some}
use sane_in_the_membrane.Common.Int.{
  ℤ, pos, ◌+ℤ◌, ◌-ℤ◌, ◌*ℤ◌, ◌≤ℤ◌, min_element, max_element, int_laws, least, min_element-le,
  min_element-All, greatest, le-max_element, max_element-All, *ℤ-sub_distrib, neg-*ℤ,
}
use sane_in_the_membrane.Pdf.Geometry.{
  Transform, PdfMatrix, matrix, layout_image, layout_under, map_x, map_y, at_corners,
}

-- Where the content of a page is drawn: `cm` of the PDF standard, y upwards from the bottom.
abbrev pub place : Option PdfMatrix → ℤ → ℤ → ℤ × ℤ
place none x y = (x, y)
place (some m) x y = (m.a *ℤ x +ℤ m.c *ℤ y +ℤ m.x, m.b *ℤ x +ℤ m.d *ℤ y +ℤ m.y)

-- `QPixmap::transformed`: the smallest picture that holds all transformed points, y downwards from
-- the top.
module _ (t : Transform) where
  abbrev pub turned_x : ℤ → ℤ → ℤ
  turned_x x y = t.m11 *ℤ x +ℤ t.m21 *ℤ y

  abbrev pub turned_y : ℤ → ℤ → ℤ
  turned_y x y = t.m12 *ℤ x +ℤ t.m22 *ℤ y

module _ (t : Transform) (w h : ℤ) where
  abbrev pub preview_width : ℤ
  preview_width = at_corners w h max_element (turned_x t) -ℤ at_corners w h min_element (turned_x t)

  abbrev pub preview_height : ℤ
  preview_height =
      at_corners w h max_element (turned_y t) -ℤ at_corners w h min_element (turned_y t)

  abbrev pub preview_x : ℤ → ℤ → ℤ
  preview_x x y = turned_x t x y -ℤ at_corners w h min_element (turned_x t)

  abbrev pub preview_y : ℤ → ℤ → ℤ
  preview_y x y = turned_y t x y -ℤ at_corners w h min_element (turned_y t)

-- The smallest and the largest of four numbers bound them, and are bounded as they all are.
pub lower :
    (q r s u : ℤ)
    → let m = min_element q (r ∷ s ∷ u ∷ []) in
      (m ≤ℤ q)
      × (m ≤ℤ r)
      × (m ≤ℤ s)
      × (m ≤ℤ u)
      × ((k : ℤ) → k ≤ℤ q → k ≤ℤ r → k ≤ℤ s → k ≤ℤ u → k ≤ℤ m)
lower q r s u =
    let rest = min_element-All q (r ∷ s ∷ u ∷ []) in
    (
      min_element-le q (r ∷ s ∷ u ∷ []),
      rest.0,
      rest.1.0,
      rest.1.1.0,
      λ k a b c d. least k q (r ∷ s ∷ u ∷ []) a (b, (c, (d, tt))),
    )

pub upper :
    (q r s u : ℤ)
    → let m = max_element q (r ∷ s ∷ u ∷ []) in
      (q ≤ℤ m)
      × (r ≤ℤ m)
      × (s ≤ℤ m)
      × (u ≤ℤ m)
      × ((k : ℤ) → q ≤ℤ k → r ≤ℤ k → s ≤ℤ k → u ≤ℤ k → m ≤ℤ k)
upper q r s u =
    let rest = max_element-All q (r ∷ s ∷ u ∷ []) in
    (
      le-max_element q (r ∷ s ∷ u ∷ []),
      rest.0,
      rest.1.0,
      rest.1.1.0,
      λ k a b c d. greatest k q (r ∷ s ∷ u ∷ []) a (b, (c, (d, tt))),
    )

min_element-shift :
    (k q r s u q' r' s' u' : ℤ)
    → q' ≡ s -ℤ k
    → r' ≡ u -ℤ k
    → s' ≡ q -ℤ k
    → u' ≡ r -ℤ k
    → min_element q' (r' ∷ s' ∷ u' ∷ []) ≡ min_element q (r ∷ s ∷ u ∷ []) -ℤ k
min_element-shift k q r s u q' r' s' u' e₀ e₁ e₂ e₃ =
    let (a, b, c, d, bounds) = lower q r s u in
    let (a', b', c', d', bounds') = lower q' r' s' u' in
    let m = min_element q (r ∷ s ∷ u ∷ []) in
    let m' = min_element q' (r' ∷ s' ∷ u' ∷ []) in
    omega (
      int_laws,
      bounds (m' +ℤ k) (omega (int_laws, c')) (omega (int_laws, d')) (omega (int_laws, a'))
          (omega (int_laws, b')),
      bounds' (m -ℤ k) (omega (int_laws, c)) (omega (int_laws, d)) (omega (int_laws, a))
          (omega (int_laws, b)),
    )

max_element-shift :
    (k q r s u q' r' s' u' : ℤ)
    → q' ≡ s -ℤ k
    → r' ≡ u -ℤ k
    → s' ≡ q -ℤ k
    → u' ≡ r -ℤ k
    → max_element q' (r' ∷ s' ∷ u' ∷ []) ≡ max_element q (r ∷ s ∷ u ∷ []) -ℤ k
max_element-shift k q r s u q' r' s' u' e₀ e₁ e₂ e₃ =
    let (a, b, c, d, bounds) = upper q r s u in
    let (a', b', c', d', bounds') = upper q' r' s' u' in
    let m = max_element q (r ∷ s ∷ u ∷ []) in
    let m' = max_element q' (r' ∷ s' ∷ u' ∷ []) in
    omega (
      int_laws,
      bounds (m' +ℤ k) (omega (int_laws, c')) (omega (int_laws, d')) (omega (int_laws, a'))
          (omega (int_laws, b')),
      bounds' (m -ℤ k) (omega (int_laws, c)) (omega (int_laws, d)) (omega (int_laws, a))
          (omega (int_laws, b)),
    )

-- Turned upside down, the largest is as far from the one end as the smallest was from the other.
max_element-flip :
    (k q r s u q' r' s' u' : ℤ)
    → q' ≡ k -ℤ s
    → r' ≡ k -ℤ u
    → s' ≡ k -ℤ q
    → u' ≡ k -ℤ r
    → max_element q' (r' ∷ s' ∷ u' ∷ []) ≡ k -ℤ min_element q (r ∷ s ∷ u ∷ [])
max_element-flip k q r s u q' r' s' u' e₀ e₁ e₂ e₃ =
    let (a, b, c, d, bounds) = lower q r s u in
    let (a', b', c', d', bounds') = upper q' r' s' u' in
    let m = min_element q (r ∷ s ∷ u ∷ []) in
    let m' = max_element q' (r' ∷ s' ∷ u' ∷ []) in
    omega (
      int_laws,
      bounds (k -ℤ m') (omega (int_laws, c')) (omega (int_laws, d')) (omega (int_laws, a'))
          (omega (int_laws, b')),
      bounds' (k -ℤ m) (omega (int_laws, c)) (omega (int_laws, d)) (omega (int_laws, a))
          (omega (int_laws, b)),
    )

min_element-flip :
    (k q r s u q' r' s' u' : ℤ)
    → q' ≡ k -ℤ s
    → r' ≡ k -ℤ u
    → s' ≡ k -ℤ q
    → u' ≡ k -ℤ r
    → min_element q' (r' ∷ s' ∷ u' ∷ []) ≡ k -ℤ max_element q (r ∷ s ∷ u ∷ [])
min_element-flip k q r s u q' r' s' u' e₀ e₁ e₂ e₃ =
    let (a, b, c, d, bounds) = upper q r s u in
    let (a', b', c', d', bounds') = lower q' r' s' u' in
    let m = max_element q (r ∷ s ∷ u ∷ []) in
    let m' = min_element q' (r' ∷ s' ∷ u' ∷ []) in
    omega (
      int_laws,
      bounds (k -ℤ m') (omega (int_laws, c')) (omega (int_laws, d')) (omega (int_laws, a'))
          (omega (int_laws, b')),
      bounds' (k -ℤ m) (omega (int_laws, c)) (omega (int_laws, d)) (omega (int_laws, a))
          (omega (int_laws, b)),
    )

module _ (t : Transform) (w h : ℤ) where
  -- A point of the picture, measured from the bottom and from the top.
  map_x-flipped : (x y : ℤ) → map_x (matrix t) x (h -ℤ y) ≡ turned_x t x y -ℤ t.m21 *ℤ h
  map_x-flipped x y = omega (int_laws, neg-*ℤ t.m21 (h -ℤ y), *ℤ-sub_distrib t.m21 h y)

  map_y-flipped : (x y : ℤ) → map_y (matrix t) x (h -ℤ y) ≡ t.m22 *ℤ h -ℤ turned_y t x y
  map_y-flipped x y = omega (int_laws, neg-*ℤ t.m12 x, *ℤ-sub_distrib t.m22 h y)

  map_x-bottom : (x : ℤ) → map_x (matrix t) x (pos 0) ≡ turned_x t x h -ℤ t.m21 *ℤ h
  map_x-bottom x = omega (int_laws, neg-*ℤ t.m21 (pos 0))

  map_x-top : (x : ℤ) → map_x (matrix t) x h ≡ turned_x t x (pos 0) -ℤ t.m21 *ℤ h
  map_x-top x = omega (int_laws, neg-*ℤ t.m21 h)

  map_y-bottom : (x : ℤ) → map_y (matrix t) x (pos 0) ≡ t.m22 *ℤ h -ℤ turned_y t x h
  map_y-bottom x = omega (int_laws, neg-*ℤ t.m12 x)

  map_y-top : (x : ℤ) → map_y (matrix t) x h ≡ t.m22 *ℤ h -ℤ turned_y t x (pos 0)
  map_y-top x = omega (int_laws, neg-*ℤ t.m12 x)

  min_x-corners :
      at_corners w h min_element (map_x (matrix t))
      ≡ at_corners w h min_element (turned_x t) -ℤ t.m21 *ℤ h
  min_x-corners =
      min_element-shift _ _ _ _ _ _ _ _ _ (map_x-bottom (pos 0)) (map_x-bottom w)
        (map_x-top (pos 0)) (map_x-top w)

  max_x-corners :
      at_corners w h max_element (map_x (matrix t))
      ≡ at_corners w h max_element (turned_x t) -ℤ t.m21 *ℤ h
  max_x-corners =
      max_element-shift _ _ _ _ _ _ _ _ _ (map_x-bottom (pos 0)) (map_x-bottom w)
        (map_x-top (pos 0)) (map_x-top w)

  min_y-corners :
      at_corners w h min_element (map_y (matrix t))
      ≡ t.m22 *ℤ h -ℤ at_corners w h max_element (turned_y t)
  min_y-corners =
      min_element-flip _ _ _ _ _ _ _ _ _ (map_y-bottom (pos 0)) (map_y-bottom w) (map_y-top (pos 0))
        (map_y-top w)

  max_y-corners :
      at_corners w h max_element (map_y (matrix t))
      ≡ t.m22 *ℤ h -ℤ at_corners w h min_element (turned_y t)
  max_y-corners =
      max_element-flip _ _ _ _ _ _ _ _ _ (map_y-bottom (pos 0)) (map_y-bottom w) (map_y-top (pos 0))
        (map_y-top w)

-- What you see is what is saved: for every transform, the page has the size of the preview, before that
-- is scaled to fit, the picture is drawn in its own size, and each of its points lies on the page
-- where the preview shows it, the one measured from the bottom and the other from the top.
pub layout_image-preview :
    (t : Transform) (w h x y : ℤ)
    → let page = layout_image (some (matrix t)) w h in
      (page.width ≡ preview_width t w h)
      × (page.height ≡ preview_height t w h)
      × ((page.image_width ≡ w) × (page.image_height ≡ h))
      × (let placed = place page.concat x (h -ℤ y) in
          (placed.0 ≡ preview_x t w h x y)
          × (placed.1 ≡ preview_height t w h -ℤ preview_y t w h x y))
unfolding layout_image layout_under
layout_image-preview t w h x y = (
  omega (int_laws, min_x-corners t w h, max_x-corners t w h),
  omega (int_laws, min_y-corners t w h, max_y-corners t w h),
  (refl, refl),
  (
    omega (int_laws, min_x-corners t w h, map_x-flipped t w h x y),
    omega (int_laws, min_y-corners t w h, max_y-corners t w h, map_y-flipped t w h x y),
  ),
)
