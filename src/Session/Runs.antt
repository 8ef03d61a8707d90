-- ===== src/Session/Runs.antt =====
-- Concrete sessions, and the theorems at them.
use sane_in_the_membrane.Common.{
  ◌+◌, ◌^◌, ◌<◌, ◌≡◌, refl, true, false, List, [], ◌∷◌, none, arith, length,
}
use sane_in_the_membrane.Common.Word.{to_bytes, of_bytes}
use sane_in_the_membrane.Common.Exec.{ok, stuck, value}
use sane_in_the_membrane.Files.FileSystem.{FileSystem}
use sane_in_the_membrane.Files.FileRw.{FileRw, exists}
use sane_in_the_membrane.Session.Memory.{Memory, Holds-whole, load}
use sane_in_the_membrane.Session.Item.{
  QtMatrix, ImageItemSerialized, serialize, deserialize, matrix_bytes,
}
use sane_in_the_membrane.Session.Items.{serialize_items, deserialize_items}
use sane_in_the_membrane.Session.Restore.{pressed_ok}
use sane_in_the_membrane.Session.Lifecycle.{
  SessionView, started, shown, changed, view_run, view_run-IsUnsaved,
}
use sane_in_the_membrane.Session.RoundTrip.{deserialize_items-serialize_items}
use sane_in_the_membrane.Session.Corrupt.{backward, deserialize_items-backward}

-- 1.0 and 0.0 as bit patterns.
abbrev identity : QtMatrix
identity = record {
  m11 = 0x3ff0_0000_0000_0000;
  m12 = 0;
  m13 = 0;
  m21 = 0;
  m22 = 0x3ff0_0000_0000_0000;
  m23 = 0;
  m31 = 0;
  m32 = 0;
  m33 = 0x3ff0_0000_0000_0000;
}

abbrev second_page : ImageItemSerialized
second_page = record { transform_matrix = identity; page_number = 2; path = b'/' ∷ b'b' ∷ [] }

abbrev first_page : ImageItemSerialized
first_page = record { transform_matrix = identity; page_number = 1; path = b'/' ∷ b'a' ∷ [] }

abbrev pages : List ImageItemSerialized
pages = second_page ∷ first_page ∷ []

abbrev session_file : FileRw
session_file = record { path = "/tmp/sane_in_the_membrane/session" }

abbrev empty_disk : FileSystem
empty_disk path = none

-- A test: the first word of a page is the lowest byte first.
first_bytes : to_bytes 8 identity.m11 ≡ 0 ∷ 0 ∷ 0 ∷ 0 ∷ 0 ∷ 0 ∷ 0xf0 ∷ 0x3f ∷ []
unfolding to_bytes
first_bytes = refl

-- A test: a page whose path is longer than its bytes is skipped.
cut_page : deserialize (record { base = 0; bytes = serialize first_page }) 0 89 ≡ ok none
unfolding deserialize serialize matrix_bytes to_bytes of_bytes load
cut_page = refl

fits_pages : 4096 + length (serialize_items pages) < 2 ^ 64
unfolding serialize_items serialize matrix_bytes to_bytes
fits_pages = omega arith

deserialize_items-serialize_items_example :
    deserialize_items 3 (record { base = 4096; bytes = serialize_items pages }) ≡ ok (value pages)
deserialize_items-serialize_items_example =
    deserialize_items-serialize_items 4096 3 pages (omega arith) fits_pages (omega arith)

view_run-IsUnsaved_example :
    (v : SessionView) × (view_run 2 4096 3 session_file
        (record { fs = empty_disk; session_saving_disabled = true })
        (shown pressed_ok ∷ changed pages ∷ started ∷ shown pressed_ok ∷ [])
      ≡ ok v)
    × ((exists session_file v.fs ≡ false) × (v.session_saving_disabled ≡ true))
unfolding exists
view_run-IsUnsaved_example =
    view_run-IsUnsaved 2 4096 3 session_file
      (record { fs = empty_disk; session_saving_disabled = true })
      (shown pressed_ok ∷ changed pages ∷ started ∷ shown pressed_ok ∷ []) (refl, refl)

abbrev looping : Memory
looping = record { base = 4096; bytes = to_bytes 8 backward }

deserialize_items-backward_example : deserialize_items 100 looping ≡ stuck
deserialize_items-backward_example =
    deserialize_items-backward looping 100 (Holds-whole looping) (omega arith)
