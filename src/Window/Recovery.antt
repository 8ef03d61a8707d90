-- ===== src/Window/Recovery.antt =====
-- What the session file holds while pages are scanned, moved, turned and removed.
use mathlib.Core.Path.{subst}
use mathlib.Core.List.{Perm}
use sane_in_the_membrane.Common.{
  ℕ, ◌+◌, ◌^◌, ◌<◌, ◌≡◌, refl, sym, ap, Bool, true, false, List, [], ◌∷◌, length, arith, All,
}
use sane_in_the_membrane.Common.Word.{IsU64}
use sane_in_the_membrane.Common.Exec.{ok, Ensures, Ensures-bind, Ensures-any}
use text.Mathlib.TextPositions.{eq_refl}
use sane_in_the_membrane.Files.FileSystem.{FileSystem}
use sane_in_the_membrane.Files.FileRw.{FileRw, IsOpenable, write, append}
use sane_in_the_membrane.Files.Opening.{OnlyMakes-IsOpenable, new_file-OnlyMakes}
use sane_in_the_membrane.Session.Item.{ImageItemSerialized, IsItem}
use sane_in_the_membrane.Session.Items.{serialize_items}
use sane_in_the_membrane.Session.Store.{save_session}
use sane_in_the_membrane.Session.Restore.{
  pressed_ok, Restored, show_event, save_pages, show_event-save_pages, IsSortedFrom, sort_pages,
}
use sane_in_the_membrane.View.Container.{remove_image, move_image}
use sane_in_the_membrane.Window.{
  Setting, ImageView, items_of, save_view, init_image_connections, add_scanned, add_page, add_pages,
  sl_remove_image, sl_move_image, sl_transform, sl_sig_done, show_view, enable_saving, WindowEvent,
  shown, scan_done, remove_requested, move_requested, transform_requested, save_clicked,
  handle_event, handle_events,
}
use sane_in_the_membrane.Window.Closing.{IsNoSave}

save_pages-IsOpenable :
    (version : ℕ) (file : FileRw) (items : List ImageItemSerialized) (fs : FileSystem)
    → IsOpenable fs file
    → IsOpenable (save_pages version false file items fs) file
unfolding save_pages save_session append write
save_pages-IsOpenable version file items fs h = ground (arith, h, eq_refl file.path)

module _ (s : Setting) where
  -- Saving is enabled, and the session file was written with the pages of the view.
  pub record IsSaved (v : ImageView s) : Type 0 where
    pub before : FileSystem
    pub opens : IsOpenable before s.session
    pub written : v.fs ≡ save_pages s.version false s.session (items_of s v) before
    pub enabled : v.session_saving_disabled ≡ false

  -- The session file can be written, now and after it was.
  abbrev CanSave : ImageView s → Type 0
  CanSave v = IsOpenable v.fs s.session × (v.session_saving_disabled ≡ false)

  IsSaved-CanSave : (v : ImageView s) → IsSaved v → CanSave v
  IsSaved-CanSave v h = (
    subst (λ fs. IsOpenable fs s.session) (sym h.written)
        (save_pages-IsOpenable s.version s.session (items_of s v) h.before h.opens),
    h.enabled,
  )

  save_view-IsSaved : (v : ImageView s) → CanSave v → IsSaved (save_view s v)
  unfolding save_view
  save_view-IsSaved v h = record {
    before = v.fs;
    opens = h.0;
    written = ap (λ b. save_pages s.version b s.session (items_of s v) v.fs) h.1;
    enabled = h.1;
  }

  add_scanned-IsSaved :
      (path : List ℕ) (v : ImageView s) → CanSave v → IsSaved (add_scanned s path v)
  unfolding add_scanned init_image_connections
  add_scanned-IsSaved path v h = save_view-IsSaved _ h

  add_page-IsSaved :
      (item : ImageItemSerialized) (v : ImageView s) → CanSave v → IsSaved (add_page s item v)
  unfolding add_page init_image_connections
  add_page-IsSaved item v h =
      save_view-IsSaved _
        (OnlyMakes-IsOpenable s.session (new_file-OnlyMakes (s.path_text item.path) v.fs) h.0, h.1)

  add_pages-IsSaved :
      (pages : List ImageItemSerialized) (v : ImageView s)
      → IsSaved v
      → IsSaved (add_pages s pages v)
  unfolding add_pages
  add_pages-IsSaved [] v h = h
  add_pages-IsSaved (p ∷ pages) v h =
      add_pages-IsSaved pages (add_page s p v) (add_page-IsSaved p v (IsSaved-CanSave v h))

  shown-IsSaved : (enable : Bool) (v : ImageView s) → IsSaved v → IsSaved (enable_saving s enable v)
  shown-IsSaved false v h = h
  shown-IsSaved true v h = record {
    before = h.before;
    opens = h.opens;
    written = h.written;
    enabled = refl;
  }

  handle_event-IsSaved :
      (e : WindowEvent) (v : ImageView s)
      → IsNoSave e
      → IsSaved v
      → Ensures IsSaved (handle_event s e v)
  unfolding handle_event show_view sl_sig_done sl_remove_image sl_move_image sl_transform
  handle_event-IsSaved (shown base fuel answer) v n h =
      Ensures-bind IsSaved (show_event s.version base fuel answer s.session v.fs) _
        (Ensures-any (show_event s.version base fuel answer s.session v.fs))
        (λ r u.
          shown-IsSaved r.saving_enabled (add_pages s r.pages v) (add_pages-IsSaved r.pages v h))
  handle_event-IsSaved (scan_done status_ok params size path) v n h =
      ground (arith, h, add_scanned-IsSaved path v (IsSaved-CanSave v h))
  handle_event-IsSaved (remove_requested a) v n h =
      Ensures-bind IsSaved (remove_image s.layout v.grid a) _
        (Ensures-any (remove_image s.layout v.grid a))
        (λ grid u. save_view-IsSaved _ (IsSaved-CanSave v h))
  handle_event-IsSaved (move_requested a direction) v n h =
      Ensures-bind IsSaved (move_image s.layout v.grid a direction) _
        (Ensures-any (move_image s.layout v.grid a direction))
        (λ grid u. save_view-IsSaved _ (IsSaved-CanSave v h))
  handle_event-IsSaved (transform_requested b a) v n h = save_view-IsSaved _ (IsSaved-CanSave v h)
  handle_event-IsSaved (save_clicked answer) v n h = elim n [ ]

  pub handle_events-IsSaved :
      (events : List WindowEvent) (v : ImageView s)
      → All IsNoSave events
      → IsSaved v
      → Ensures IsSaved (handle_events s events v)
  unfolding handle_events
  handle_events-IsSaved [] v n h = h
  handle_events-IsSaved (e ∷ events) v n h =
      Ensures-bind IsSaved (handle_event s e v) _ (handle_event-IsSaved e v n.0 h)
        (λ v' h'. handle_events-IsSaved events v' n.1 h')

-- The program may stop at any time: from a state whose pages are in the session file and in which
-- saving is enabled, after any events that return and are not a save of the document, the next start
-- brings back the pages of the last state if the user accepts, each once, with their paths, numbers
-- and transforms, in the order of their numbers. The version, the numbers, the matrices and the
-- addresses of the bytes that are loaded fit words, and the fuel exceeds the number of pages.
pub handle_events-show_event :
    (s : Setting) (v v' : ImageView s) (events : List WindowEvent) (base fuel : ℕ)
    → IsSaved s v
    → All IsNoSave events
    → handle_events s events v ≡ ok v'
    → IsU64 s.version
    → All IsItem (items_of s v')
    → base + length (serialize_items (items_of s v')) < 2 ^ 64
    → length (items_of s v') < fuel
    → (r : Restored) × (show_event s.version base fuel pressed_ok s.session v'.fs ≡ ok r)
      × (r.saving_enabled ≡ true)
      × (r.pages ≡ sort_pages (items_of s v'))
      × IsSortedFrom 0 (sort_pages (items_of s v'))
      × Perm (sort_pages (items_of s v')) (items_of s v')
handle_events-show_event s v v' events base fuel h n e fits_version items fits enough =
    let h' : IsSaved s v' = subst (Ensures (IsSaved s)) e (handle_events-IsSaved s events v n h) in
    subst
      (λ fs.
        (r : Restored) × (show_event s.version base fuel pressed_ok s.session fs ≡ ok r)
        × (r.saving_enabled ≡ true)
        × (r.pages ≡ sort_pages (items_of s v'))
        × IsSortedFrom 0 (sort_pages (items_of s v'))
        × Perm (sort_pages (items_of s v')) (items_of s v'))
      (sym h'.written)
      (show_event-save_pages s.version base fuel s.session (items_of s v') h'.before h'.opens
        fits_version items fits enough pressed_ok)
