-- ===== src/View/Runs.antt =====
-- Concrete documents, and the theorems at them.
use sane_in_the_membrane.Common.{◌≡◌, refl, List, [], ◌∷◌, arith, if◌then◌else◌, ◌==◌}
use sane_in_the_membrane.Common.Exec.{ok, ◌>>=◌}
use sane_in_the_membrane.View.Layout.{list_layout}
use sane_in_the_membrane.View.Container.{Container, left, right, move_image, remove_image}
use sane_in_the_membrane.View.Edit.{IsShowing}
use sane_in_the_membrane.View.Document.{Edit, add, remove, move}
use sane_in_the_membrane.View.Moved.{remove_image-move_image}

-- The items 10, 20 and 30, pages 1 to 3.
abbrev document : Container list_layout
document = record {
  items = 10 ∷ 20 ∷ 30 ∷ [];
  layout = 10 ∷ 20 ∷ 30 ∷ [];
  numbers = λ a. if a == 10 then 1 else if a == 20 then 2 else if a == 30 then 3 else 0;
}

abbrev document_shown : IsShowing list_layout document (10 ∷ 20 ∷ 30 ∷ [])
document_shown = (refl, (refl, (refl, (refl, tt))))

remove_image-move_image_example :
    (c' : Container list_layout) × ((move_image list_layout document 10 right >>= λ moved.
    remove_image list_layout moved 20)
      ≡ ok c')
    × (c'.layout ≡ 10 ∷ 30 ∷ [])
    × (c'.numbers 10 ≡ 2)
    × (c'.numbers 30 ≡ 2)
remove_image-move_image_example =
    remove_image-move_image list_layout document [] 10 20 30 document_shown refl (omega arith)

-- From an empty document: two pages, one removed, two more, and moves with and without effect.
abbrev edits : List Edit
edits =
    add 10 ∷ add 20 ∷ remove 10 ∷ add 30 ∷ add 10 ∷ move 10 left ∷ move 20 left ∷ move 20 right ∷ []

abbrev no_pages : Container list_layout
no_pages = record { items = []; layout = []; numbers = λ a. 0 }
