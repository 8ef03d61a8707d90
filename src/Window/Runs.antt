-- ===== src/Window/Runs.antt =====
-- A concrete window, and the theorems at it.
use mathlib.Core.List.{Perm}
use mathlib.Core.Path.{subst}
use sane_in_the_membrane.Common.{
  ℕ, ◌≡◌, refl, true, false, List, [], ◌∷◌, none, some, arith, ◌+◌, ◌<◌, ◌^◌, length, ◌⊎◌, All, sym,
}
use sane_in_the_membrane.Common.Exec.{Exec, ok, fault, stuck}
use sane_in_the_membrane.Files.FileSystem.{FileSystem, write_trunc}
use sane_in_the_membrane.Files.Opening.{OnlyMakes}
use sane_in_the_membrane.Session.Item.{
  QtMatrix, ImageItemSerialized, serialize, matrix_bytes, IsItem,
}
use sane_in_the_membrane.Common.Word.{to_bytes}
use sane_in_the_membrane.Session.Items.{serialize_items}
use sane_in_the_membrane.Session.Restore.{
  pressed_ok, pressed_cancel, Restored, show_event, save_pages, IsSortedFrom, sort_pages,
}
use sane_in_the_membrane.View.Layout.{list_layout}
use sane_in_the_membrane.View.Container.{right, move_image, swap_pages, add_image, remove_image}
use sane_in_the_membrane.Window.{
  show_view, Setting, ImageView, Image, sl_move_image, sl_transform, sl_sig_done, sl_remove_image,
  remove_requested, rotate_left, items_of, WindowEvent, scan_done, move_requested,
  transform_requested, handle_events, close_event,
}
use sane_in_the_membrane.View.Document.{Implements}
use sane_in_the_membrane.Window.Restart.{pictures}
use sane_in_the_membrane.Window.Reopening.{handle_events-show_view}
use sane_in_the_membrane.Window.Pages.{handle_events-Implements}
use sane_in_the_membrane.Window.Closing.{close_event-handle_events, close_event-arranged}
use sane_in_the_membrane.Window.Recovery.{handle_events-show_event}

abbrev plain : QtMatrix
plain = record { m11 = 1; m12 = 0; m13 = 0; m21 = 0; m22 = 1; m23 = 0; m31 = 0; m32 = 0; m33 = 1 }

abbrev setting : Setting
setting = record {
  layout = list_layout;
  turned = λ b m. record m { m11 = m.m12; m12 = m.m11 };
  identity = plain;
  Matrix = QtMatrix;
  pdf_matrix = λ m. m;
  path_text = λ bytes. "/tmp/page.jpg";
  libharu = record {
    Doc = List ℕ;
    new_doc = [];
    load_jpeg = λ path d. (some 0, d);
    add_page = λ d. (true, d);
    draw = λ image m d. image ∷ d;
    save_to_file = λ path d fs. write_trunc fs path d;
  };
  version = 2;
  session = record { path = "/tmp/session" };
}

abbrev empty_disk : FileSystem
empty_disk path = none

abbrev picture : Image
picture = record { path = b'/' ∷ b'a' ∷ []; transform = plain }

-- One page, the item 0, which is in the session file.
abbrev one_page : ImageView setting
one_page = record {
  grid = record { items = 0 ∷ []; layout = 0 ∷ []; numbers = λ a. 1 };
  images = λ a. picture;
  next_item = 1;
  fs =
      save_pages 2 false (record { path = "/tmp/session" })
        (record { transform_matrix = plain; page_number = 1; path = b'/' ∷ b'a' ∷ [] } ∷ [])
        empty_disk;
  session_saving_disabled = false;
  window_modified = false;
}

abbrev ended : Exec (ImageView setting) → ImageView setting
ended (ok v) = v
ended fault = one_page
ended stuck = one_page

-- A second page is scanned, the first is turned and moved behind it.
abbrev events : List WindowEvent
events =
    scan_done true (record { bytes_per_line = 6; pixels_per_line = 2; lines = 3 }) 18
      (b'/' ∷ b'b' ∷ [])
    ∷ transform_requested rotate_left 0
    ∷ move_requested 0 right
    ∷ []

abbrev arranging : List WindowEvent
arranging = transform_requested rotate_left 0 ∷ move_requested 0 right ∷ []

abbrev later : ImageView setting
later = ended (handle_events setting events one_page)

abbrev arranged : ImageView setting
arranged = ended (handle_events setting arranging one_page)

arranged_ok : handle_events setting arranging one_page ≡ ok arranged
unfolding handle_events move_image sl_move_image sl_transform
arranged_ok = refl

later_ok : handle_events setting events one_page ≡ ok later
unfolding handle_events move_image swap_pages add_image sl_move_image sl_transform sl_sig_done
later_ok = refl

close_event-arranged_example :
    close_event setting pressed_cancel arranged
    ≡ record { accepted = true; asked = false; interrupted = false }
close_event-arranged_example =
    close_event-arranged setting one_page arranged arranging pressed_cancel refl (tt, (tt, tt))
      arranged_ok

-- The page is removed.
abbrev emptied : ImageView setting
emptied = ended (handle_events setting (remove_requested 0 ∷ []) one_page)

emptied_ok : handle_events setting (remove_requested 0 ∷ []) one_page ≡ ok emptied
unfolding handle_events sl_remove_image remove_image
emptied_ok = refl

emptied_quiet : (close_event setting pressed_cancel emptied).asked ≡ false
unfolding handle_events sl_remove_image remove_image close_event
emptied_quiet = refl

close_event-handle_events_example :
    (list_layout.count emptied.grid.layout ≡ 0) ⊎ (emptied.grid.items ≡ 0 ∷ [])
close_event-handle_events_example =
    close_event-handle_events setting one_page emptied (remove_requested 0 ∷ []) pressed_cancel
      (tt, tt) emptied_ok emptied_quiet

abbrev two_items : List ImageItemSerialized
two_items =
    record {
      transform_matrix = record plain { m11 = 0; m12 = 1 };
      page_number = 2;
      path = b'/' ∷ b'a' ∷ [];
    }
    ∷ record { transform_matrix = plain; page_number = 1; path = b'/' ∷ b'b' ∷ [] }
    ∷ []

later_items : items_of setting later ≡ two_items
unfolding handle_events move_image swap_pages add_image sl_move_image sl_transform sl_sig_done
later_items = refl

two_items_fit : 4096 + length (serialize_items two_items) < 2 ^ 64
unfolding serialize_items serialize matrix_bytes to_bytes
two_items_fit = omega arith

fits_words : All IsItem two_items
fits_words = omega arith

handle_events-show_event_example :
    (r : Restored) × (show_event 2 4096 3 pressed_ok setting.session later.fs ≡ ok r)
    × (r.saving_enabled ≡ true)
    × (r.pages ≡ sort_pages (items_of setting later))
    × IsSortedFrom 0 (sort_pages (items_of setting later))
    × Perm (sort_pages (items_of setting later)) (items_of setting later)
handle_events-show_event_example =
    handle_events-show_event setting one_page later events 4096 3
      (record { before = empty_disk; opens = refl; written = refl; enabled = refl })
      (tt, (tt, (tt, tt))) later_ok (omega arith) (subst (All IsItem) (sym later_items) fits_words)
      (subst (λ items. 4096 + length (serialize_items items) < 2 ^ 64) (sym later_items)
        two_items_fit)
      (subst (λ items. length items < 3) (sym later_items) (omega arith))

handle_events-Implements_example :
    (v' : ImageView setting) × (handle_events setting events one_page ≡ ok v')
    × Implements list_layout v'.grid (record { pages = 1 ∷ 0 ∷ []; moved = true })
handle_events-Implements_example =
    handle_events-Implements setting one_page events (record { pages = 0 ∷ []; moved = false })
      (tt, (tt, (tt, tt))) ((omega arith, λ h. omega arith), (tt, (tt, tt)))
      ((omega arith, tt), omega arith, (refl, omega arith, tt))
      (record { shown = refl; numbered = (refl, tt); kept = refl })

abbrev reopened : ImageView setting
reopened = record {
  grid = record { items = []; layout = []; numbers = λ a. 0 };
  images = λ a. picture;
  next_item = 5;
  fs = later.fs;
  session_saving_disabled = true;
  window_modified = false;
}

handle_events-show_view_example :
    (w' : ImageView setting) × (show_view setting 4096 3 pressed_ok reopened ≡ ok w')
    × (pictures setting w' ≡ pictures setting later)
    × Implements list_layout w'.grid (record { pages = 5 ∷ 6 ∷ []; moved = false })
    × (w'.session_saving_disabled ≡ false)
    × OnlyMakes later.fs w'.fs
handle_events-show_view_example =
    handle_events-show_view setting one_page later reopened events
      (record { pages = 0 ∷ []; moved = false }) 4096 3
      (record { before = empty_disk; opens = refl; written = refl; enabled = refl })
      (record { shown = refl; numbered = (refl, tt); kept = refl }) (tt, (tt, (tt, tt)))
      (tt, (tt, (tt, tt))) ((omega arith, λ h. omega arith), (tt, (tt, tt)))
      ((omega arith, tt), omega arith, (refl, omega arith, tt)) later_ok (omega arith)
      (subst (All IsItem) (sym later_items) fits_words)
      (subst (λ items. 4096 + length (serialize_items items) < 2 ^ 64) (sym later_items)
        two_items_fit)
      (subst (λ items. length items < 3) (sym later_items) (omega arith))
      (record { no_pages = refl; no_items = refl; disabled = refl }) refl
