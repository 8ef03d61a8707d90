-- ===== src/Pdf/Geometry.antt =====
-- How a picture lies on its page: `CImageItem::matrix` of gui-app/src/Ui/ImageView.cpp and the part of
-- `CPdf::add_image` (gui-app/src/Utils/Pdf/Pdf.cpp) that computes the page from a matrix. Numbers are
-- whole: what the buttons of a page make of a transform is, and `float` and `double` are exact on whole
-- numbers up to 2^24.
-- Libharu takes sizes of a page from 3 to 14400 only; they are taken as set.
use sane_in_the_membrane.Common.{List, [], ◌∷◌, Option, none, some}
use sane_in_the_membrane.Common.Int.{ℤ, pos, ◌+ℤ◌, ◌-ℤ◌, ◌*ℤ◌, min_element, max_element}

-- The part of a `QTransform` that is read: what it does to a point, and the shift.
pub record Transform : Type 0 where
  pub m11 : ℤ
  pub m12 : ℤ
  pub m21 : ℤ
  pub m22 : ℤ
  pub dx : ℤ
  pub dy : ℤ

pub record PdfMatrix : Type 0 where
  pub a : ℤ
  pub b : ℤ
  pub c : ℤ
  pub d : ℤ
  pub x : ℤ
  pub y : ℤ

abbrev pub matrix : Transform → PdfMatrix
matrix t = record { a = t.m11; b = t.m12; c = t.m21; d = t.m22; x = t.dx; y = t.dy }

-- The size of the page, the matrix of `HPDF_Page_Concat` where it is called, and the size with which
-- the image is drawn at the origin.
pub record Layout : Type 0 where
  pub width : ℤ
  pub height : ℤ
  pub concat : Option PdfMatrix
  pub image_width : ℤ
  pub image_height : ℤ

module _ (m : PdfMatrix) where
  abbrev pub map_x : ℤ → ℤ → ℤ
  map_x x y = m.a *ℤ x +ℤ (pos 0 -ℤ m.c) *ℤ y

  abbrev pub map_y : ℤ → ℤ → ℤ
  map_y x y = (pos 0 -ℤ m.b) *ℤ x +ℤ m.d *ℤ y

-- The smallest or the largest image of a corner.
abbrev pub at_corners : ℤ → ℤ → (ℤ → List ℤ → ℤ) → (ℤ → ℤ → ℤ) → ℤ
at_corners img_width img_height element f =
    element (f (pos 0) (pos 0))
      (f img_width (pos 0) ∷ f (pos 0) img_height ∷ f img_width img_height ∷ [])

unfoldable pub layout_under : PdfMatrix → ℤ → ℤ → Layout
layout_under m img_width img_height =
    let min_x = at_corners img_width img_height min_element (map_x m) in
    let min_y = at_corners img_width img_height min_element (map_y m) in
    record {
      width = at_corners img_width img_height max_element (map_x m) -ℤ min_x;
      height = at_corners img_width img_height max_element (map_y m) -ℤ min_y;
      concat = some (record {
        a = m.a;
        b = pos 0 -ℤ m.b;
        c = pos 0 -ℤ m.c;
        d = m.d;
        x = pos 0 -ℤ min_x;
        y = pos 0 -ℤ min_y;
      });
      image_width = img_width;
      image_height = img_height;
    }

unfoldable pub layout_image : Option PdfMatrix → ℤ → ℤ → Layout
unfolding layout_under
layout_image (some m) img_width img_height = layout_under m img_width img_height
layout_image none img_width img_height = record {
  width = img_width;
  height = img_height;
  concat = none;
  image_width = img_width;
  image_height = img_height;
}
