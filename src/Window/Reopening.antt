-- ===== src/Window/Reopening.antt =====
-- A stop of the program at any time, and its next start: the slots and `showEvent` of `CImageView`
-- (gui-app/src/Ui/ImageView.cpp).
use mathlib.Core.Path.{subst}
use sane_in_the_membrane.Common.{ℕ, ◌+◌, ◌^◌, ◌<◌, ◌≡◌, refl, false, List, length, All}
use sane_in_the_membrane.Common.Word.{IsU64}
use sane_in_the_membrane.Common.Exec.{ok, Ensures}
use sane_in_the_membrane.Files.Opening.{OnlyMakes}
use sane_in_the_membrane.Session.Item.{IsItem}
use sane_in_the_membrane.Session.Items.{serialize_items}
use sane_in_the_membrane.Session.Restore.{pressed_ok}
use sane_in_the_membrane.View.Document.{PageList, AllowedAll, apply_all, Implements}
use sane_in_the_membrane.Window.{
  Setting, ImageView, items_of, show_view, WindowEvent, handle_events,
}
use sane_in_the_membrane.Window.Closing.{IsNoSave}
use sane_in_the_membrane.Window.Pages.{IsNotShown, IsReadable, edits_of, handle_events-Implements}
use sane_in_the_membrane.Window.Recovery.{IsSaved, handle_events-IsSaved}
use sane_in_the_membrane.Window.Restart.{
  addresses, pictures, IsFresh, restarted, restarted-Implements, pictures-restarted, files_kept,
  show_view-restarted,
}

-- Nothing is lost if the program stops: from a view that shows a document and whose session file is
-- up to date, after any allowed scans, removals, moves and turns, the next start on the same files,
-- if the user accepts, shows the same pictures in the same order, each with its file and transform,
-- on pages numbered from 1 whose vector of items has that order too; saving is enabled, and the
-- files are as they were, but for missing ones that are made empty. A scan that succeeded has no
-- product that overflows and no file with a byte for each pixel but not those of each line. The
-- version, the numbers, the matrices and the addresses of the bytes that are loaded fit words, and
-- the fuel exceeds the number of pages.
pub handle_events-show_view :
    (s : Setting) (v₀ v w : ImageView s) (events : List WindowEvent) (d : PageList) (base fuel : ℕ)
    → IsSaved s v₀
    → Implements s.layout v₀.grid d
    → All IsNoSave events
    → All IsNotShown events
    → All IsReadable events
    → AllowedAll (edits_of v₀.next_item events) d
    → handle_events s events v₀ ≡ ok v
    → IsU64 s.version
    → All IsItem (items_of s v)
    → base + length (serialize_items (items_of s v)) < 2 ^ 64
    → length (items_of s v) < fuel
    → IsFresh s w
    → w.fs ≡ v.fs
    → (w' : ImageView s) × (show_view s base fuel pressed_ok w ≡ ok w')
      × (pictures s w' ≡ pictures s v)
      × Implements s.layout w'.grid (record {
        pages = addresses w.next_item (length (apply_all (edits_of v₀.next_item events) d).pages);
        moved = false;
      })
      × (w'.session_saving_disabled ≡ false)
      × OnlyMakes v.fs w'.fs
handle_events-show_view s v₀ v w events d base fuel saved₀ i₀ no_save not_shown readable allowed e
      fits_version items fits enough fresh same =
    let saved : IsSaved s v =
      subst (Ensures (IsSaved s)) e (handle_events-IsSaved s events v₀ no_save saved₀) in
    let d' = apply_all (edits_of v₀.next_item events) d in
    let (v', e', i') = handle_events-Implements s v₀ events d not_shown readable allowed i₀ in
    let v'_is_v : v' ≡ v = cc (e', e) in
    let i : Implements s.layout v.grid d' =
      subst (λ (u : ImageView s). Implements s.layout u.grid d') v'_is_v i' in
    (
      restarted s v w d',
      show_view-restarted s v w d' saved i fresh same base fuel fits_version items fits enough,
      pictures-restarted s v w d' saved i fresh same,
      restarted-Implements s v w d' saved i fresh same,
      refl,
      files_kept s v w d' saved i fresh same,
    )
