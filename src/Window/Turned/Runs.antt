-- ===== src/Window/Turned/Runs.antt =====
-- A page that was turned and mirrored, at a concrete size.
use sane_in_the_membrane.Common.{◌≡◌, ◌↔◌, refl, List, [], ◌∷◌, some}
use sane_in_the_membrane.Common.Int.{pos, ◌-ℤ◌}
use sane_in_the_membrane.Pdf.Geometry.{Transform, matrix, layout_image}
use sane_in_the_membrane.Pdf.Preview.{
  place, preview_width, preview_height, preview_x, preview_y, layout_image-preview,
}
use sane_in_the_membrane.Window.{ItemButton, rotate_left, rotate_right, mirror}
use sane_in_the_membrane.Window.Turned.{
  IsQtTransform, identity, clicked, IsInside, layout_image-clicked,
}

abbrev qt_turned : ItemButton → Transform → Transform
qt_turned rotate_left t = record t {
  m11 = pos 0 -ℤ t.m21;
  m12 = pos 0 -ℤ t.m22;
  m21 = t.m11;
  m22 = t.m12;
}
qt_turned rotate_right t = record t {
  m11 = t.m21;
  m12 = t.m22;
  m21 = pos 0 -ℤ t.m11;
  m22 = pos 0 -ℤ t.m12;
}
qt_turned mirror t = record t { m11 = pos 0 -ℤ t.m11; m12 = pos 0 -ℤ t.m12 }

qt_turned-IsQtTransform : IsQtTransform qt_turned
qt_turned-IsQtTransform = record { left = λ t. refl; right = λ t. refl; mirrored = λ t. refl }

abbrev buttons : List ItemButton
buttons = rotate_right ∷ mirror ∷ rotate_left ∷ rotate_left ∷ []

layout_image-clicked_example :
    let page =
      layout_image (some (matrix (clicked qt_turned buttons identity))) (pos 210) (pos 297) in
    (page.width ≡ pos 297)
    × (page.height ≡ pos 210)
    × (IsInside (pos 210) (pos 297) (pos 3, pos 290)
        ↔ IsInside page.width page.height (place page.concat (pos 3) (pos 290)))
layout_image-clicked_example =
    layout_image-clicked qt_turned buttons 210 297 (pos 3) (pos 290) qt_turned-IsQtTransform

layout_image-preview_example :
    let t = clicked qt_turned buttons identity in
    let page = layout_image (some (matrix t)) (pos 210) (pos 297) in
    (page.width ≡ preview_width t (pos 210) (pos 297))
    × (page.height ≡ preview_height t (pos 210) (pos 297))
    × ((page.image_width ≡ pos 210) × (page.image_height ≡ pos 297))
    × (let placed = place page.concat (pos 3) (pos 297 -ℤ pos 290) in
        (placed.0 ≡ preview_x t (pos 210) (pos 297) (pos 3) (pos 290))
        × (placed.1
            ≡ preview_height t (pos 210) (pos 297)
              -ℤ preview_y t (pos 210) (pos 297) (pos 3) (pos 290)))
layout_image-preview_example =
    layout_image-preview (clicked qt_turned buttons identity) (pos 210) (pos 297) (pos 3) (pos 290)
