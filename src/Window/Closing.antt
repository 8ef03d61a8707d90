-- ===== src/Window/Closing.antt =====
-- When the main window closes without a question.
use mathlib.Core.Path.{subst}
use sane_in_the_membrane.Common.{
  ℕ, ◌≡◌, refl, ◌∙◌, Bool, true, false, not, List, [], ◌∷◌, ◌++◌, ◌==◌, ==_iff, ◌-◌, length, arith,
  Bool-cases, inl, inr, ◌⊎◌, All, length-append,
}
use sane_in_the_membrane.Common.Exec.{ok, Ensures, Ensures-bind, Ensures-map, Ensures-any}
use sane_in_the_membrane.Session.Item.{ImageItemSerialized}
use sane_in_the_membrane.Session.Restore.{Answer, pressed_ok, pressed_cancel, closed, show_event}
use sane_in_the_membrane.View.Container.{
  Container, MoveDirection, add_item, add_image, add_restored, remove_image, move_image, swap_pages,
  swap_with, widget,
}
use sane_in_the_membrane.Window.{
  Setting, ImageView, save_view, init_image_connections, add_scanned, add_page, add_pages,
  sl_remove_image, sl_move_image, sl_transform, sl_sig_done, show_view, enable_saving, close_event,
  WindowEvent, shown, scan_done, remove_requested, move_requested, transform_requested,
  save_clicked, handle_event, handle_events,
}

-- The click is not on the button that saves the document.
abbrev pub IsNoSave : WindowEvent → Type 0
IsNoSave (shown base fuel answer) = Unit
IsNoSave (scan_done status_ok params size path) = Unit
IsNoSave (remove_requested a) = Unit
IsNoSave (move_requested a direction) = Unit
IsNoSave (transform_requested b a) = Unit
IsNoSave (save_clicked answer) = ⊥

module _ (s : Setting) where
  -- The window is modified, or shows no page, or has the pages listed.
  abbrev pub IsFlagged : List ℕ → ImageView s → Type 0
  IsFlagged items v =
      (v.window_modified ≡ true) ⊎ (s.layout.count v.grid.layout ≡ 0) ⊎ (v.grid.items ≡ items)

  added-modified : (items : List ℕ) (a : ℕ) → not (length (items ++ (a ∷ [])) == 0) ≡ true
  added-modified items a = rw (length-append items (a ∷ [])) (ground arith)

  add_scanned-modified :
      (path : List ℕ) (v : ImageView s) → (add_scanned s path v).window_modified ≡ true
  unfolding add_scanned init_image_connections save_view add_image add_item
  add_scanned-modified path v = added-modified v.grid.items v.next_item

  add_page-modified :
      (item : ImageItemSerialized) (v : ImageView s) → (add_page s item v).window_modified ≡ true
  unfolding add_page init_image_connections save_view add_restored add_item
  add_page-modified item v = added-modified v.grid.items v.next_item

  add_pages-IsFlagged :
      (items : List ℕ) (pages : List ImageItemSerialized) (v : ImageView s)
      → IsFlagged items v
      → IsFlagged items (add_pages s pages v)
  unfolding add_pages
  add_pages-IsFlagged items [] v h = h
  add_pages-IsFlagged items (p ∷ pages) v h =
      add_pages-IsFlagged items pages (add_page s p v) (inl (add_page-modified p v))

  -- Moving keeps the vector of items, and an empty layout is left alone.
  swap_pages-items :
      (c : Container s.layout) (i j : ℕ)
      → Ensures (λ c'. c'.items ≡ c.items) (swap_pages s.layout c i j)
  unfolding swap_pages
  swap_pages-items c i j =
      Ensures-bind (λ c'. c'.items ≡ c.items) (widget (s.layout.item_at c.layout i)) _
        (Ensures-any (widget (s.layout.item_at c.layout i)))
        (λ last_item h.
          Ensures-bind (λ c'. c'.items ≡ c.items) (widget (s.layout.item_at c.layout j)) _
            (Ensures-any (widget (s.layout.item_at c.layout j))) (λ first_item h. refl))

  move_image-items :
      (c : Container s.layout) (a : ℕ) (direction : MoveDirection)
      → Ensures (λ c'. c'.items ≡ c.items) (move_image s.layout c a direction)
  unfolding move_image
  move_image-items c a direction =
      let i = c.numbers a - 1 in
      let j = swap_with s.layout direction (c.numbers a) - 1 in
      ground (arith, swap_pages-items c i j, swap_pages-items c j i)

  move_image-empty :
      (c : Container s.layout) (a : ℕ) (direction : MoveDirection)
      → s.layout.count c.layout ≡ 0
      → move_image s.layout c a direction ≡ ok c
  unfolding move_image
  move_image-empty c a direction e = ground (arith, e)

  moved-IsFlagged :
      (items : List ℕ) (v : ImageView s) (a : ℕ) (direction : MoveDirection)
      → IsFlagged items v
      → Ensures (IsFlagged items) (sl_move_image s a direction v)
  unfolding sl_move_image save_view
  moved-IsFlagged items v a direction (inl e) =
      Ensures-bind (IsFlagged items) (move_image s.layout v.grid a direction) _
        (move_image-items v.grid a direction) (λ grid same. inl e)
  moved-IsFlagged items v a direction (inr (inl e)) =
      rw (move_image-empty v.grid a direction e) (inr (inl e))
  moved-IsFlagged items v a direction (inr (inr e)) =
      Ensures-bind (IsFlagged items) (move_image s.layout v.grid a direction) _
        (move_image-items v.grid a direction) (λ grid same. inr (inr (same ∙ e)))

  removed-IsFlagged :
      (items : List ℕ) (v : ImageView s) (a : ℕ) → Ensures (IsFlagged items) (sl_remove_image s a v)
  unfolding sl_remove_image save_view
  removed-IsFlagged items v a =
      Ensures-bind (IsFlagged items) (remove_image s.layout v.grid a) _
        (Ensures-any (remove_image s.layout v.grid a))
        (λ grid h. elim (Bool-cases (s.layout.count grid.layout == 0)) [
          | inl e ↦ inr (inl ((==_iff (s.layout.count grid.layout) 0).0 e))
          | inr e ↦ inl (rw e refl)
        ])

  shown-IsFlagged :
      (items : List ℕ) (enabled : Bool) (v : ImageView s)
      → IsFlagged items v
      → IsFlagged items (enable_saving s enabled v)
  shown-IsFlagged items true v h = h
  shown-IsFlagged items false v h = h

  handle_event-IsFlagged :
      (items : List ℕ) (e : WindowEvent) (v : ImageView s)
      → IsNoSave e
      → IsFlagged items v
      → Ensures (IsFlagged items) (handle_event s e v)
  unfolding handle_event show_view sl_sig_done sl_transform save_view
  handle_event-IsFlagged items (shown base fuel answer) v n h =
      Ensures-bind (IsFlagged items) (show_event s.version base fuel answer s.session v.fs) _
        (Ensures-any (show_event s.version base fuel answer s.session v.fs))
        (λ r u.
          shown-IsFlagged items r.saving_enabled (add_pages s r.pages v)
            (add_pages-IsFlagged items r.pages v h))
  handle_event-IsFlagged items (scan_done status_ok params size path) v n h =
      ground (arith, h, add_scanned-modified path v)
  handle_event-IsFlagged items (remove_requested a) v n h = removed-IsFlagged items v a
  handle_event-IsFlagged items (move_requested a direction) v n h =
      moved-IsFlagged items v a direction h
  handle_event-IsFlagged items (transform_requested b a) v n h = h
  handle_event-IsFlagged items (save_clicked answer) v n h = elim n [ ]

  handle_events-IsFlagged :
      (items : List ℕ) (events : List WindowEvent) (v : ImageView s)
      → All IsNoSave events
      → IsFlagged items v
      → Ensures (IsFlagged items) (handle_events s events v)
  unfolding handle_events
  handle_events-IsFlagged items [] v n h = h
  handle_events-IsFlagged items (e ∷ events) v n h =
      Ensures-bind (IsFlagged items) (handle_event s e v) _ (handle_event-IsFlagged items e v n.0 h)
        (λ v' h'. handle_events-IsFlagged items events v' n.1 h')

  asked-modified :
      (answer : Answer) (v : ImageView s)
      → v.window_modified ≡ true
      → (close_event s answer v).asked ≡ true
  unfolding close_event
  asked-modified pressed_ok v h = rw h refl
  asked-modified pressed_cancel v h = rw h refl
  asked-modified closed v h = rw h refl

  close_event-IsFlagged :
      (items : List ℕ) (answer : Answer) (v : ImageView s)
      → IsFlagged items v
      → (close_event s answer v).asked ≡ false
      → (s.layout.count v.grid.layout ≡ 0) ⊎ (v.grid.items ≡ items)
  unfolding close_event
  close_event-IsFlagged items answer v (inr h) e = h
  close_event-IsFlagged items answer v (inl h) e = cc (asked-modified answer v h, e)

-- From any state on, as long as the document is not saved, whatever is scanned, restored, removed,
-- moved or turned: if the window then closes without a question, it shows no page, or its vector of
-- pages is the one of that state.
pub close_event-handle_events :
    (s : Setting) (v v' : ImageView s) (events : List WindowEvent) (answer : Answer)
    → All IsNoSave events
    → handle_events s events v ≡ ok v'
    → (close_event s answer v').asked ≡ false
    → (s.layout.count v'.grid.layout ≡ 0) ⊎ (v'.grid.items ≡ v.grid.items)
close_event-handle_events s v v' events answer n e quiet =
    close_event-IsFlagged s v.grid.items answer v'
      (subst (Ensures (IsFlagged s v.grid.items)) e
        (handle_events-IsFlagged s v.grid.items events v n (inr (inr refl))))
      quiet

-- The page is moved or turned.
abbrev pub IsArranging : WindowEvent → Type 0
IsArranging (shown base fuel answer) = ⊥
IsArranging (scan_done status_ok params size path) = ⊥
IsArranging (remove_requested a) = ⊥
IsArranging (move_requested a direction) = Unit
IsArranging (transform_requested b a) = Unit
IsArranging (save_clicked answer) = ⊥

module _ (s : Setting) where
  handle_event-arranged :
      (e : WindowEvent) (v : ImageView s)
      → IsArranging e
      → Ensures (λ v'. v'.window_modified ≡ v.window_modified) (handle_event s e v)
  unfolding handle_event sl_move_image sl_transform save_view
  handle_event-arranged (shown base fuel answer) v h = elim h [ ]
  handle_event-arranged (scan_done status_ok params size path) v h = elim h [ ]
  handle_event-arranged (remove_requested a) v h = elim h [ ]
  handle_event-arranged (move_requested a direction) v h =
      Ensures-bind (λ v'. v'.window_modified ≡ v.window_modified)
        (move_image s.layout v.grid a direction) _
        (Ensures-any (move_image s.layout v.grid a direction)) (λ grid u. refl)
  handle_event-arranged (transform_requested b a) v h = refl
  handle_event-arranged (save_clicked answer) v h = elim h [ ]

  handle_events-arranged :
      (events : List WindowEvent) (v : ImageView s)
      → All IsArranging events
      → Ensures (λ v'. v'.window_modified ≡ v.window_modified) (handle_events s events v)
  unfolding handle_events
  handle_events-arranged [] v h = refl
  handle_events-arranged (e ∷ events) v h =
      Ensures-bind (λ v'. v'.window_modified ≡ v.window_modified) (handle_event s e v) _
        (handle_event-arranged e v h.0)
        (λ v₁ same.
          Ensures-map (λ v'. v'.window_modified ≡ v.window_modified) (handle_events s events v₁)
            (handle_events-arranged events v₁ h.1) (λ v₂ same'. same' ∙ same))

-- A window that does not count as modified still does not after any pages were moved or turned: it
-- closes at once, without a question and without an interrupt of the finder.
pub close_event-arranged :
    (s : Setting) (v v' : ImageView s) (events : List WindowEvent) (answer : Answer)
    → v.window_modified ≡ false
    → All IsArranging events
    → handle_events s events v ≡ ok v'
    → close_event s answer v' ≡ record { accepted = true; asked = false; interrupted = false }
unfolding close_event
close_event-arranged s v v' events answer saved h e =
    let same : v'.window_modified ≡ v.window_modified =
      subst (Ensures (λ w. w.window_modified ≡ v.window_modified)) e
        (handle_events-arranged s events v h) in
    rw (same ∙ saved) refl
