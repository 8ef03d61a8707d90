-- ===== src/Session/Lifecycle.antt =====
-- The session file over the runs of the program: `m_session_saving_disabled` of `CImageView`
-- (gui-app/src/Ui/ImageView.{hpp,cpp}), which starts as true and is cleared in `showEvent` only.
use sane_in_the_membrane.Common.{
  ℕ, ◌≡◌, refl, true, false, List, [], ◌∷◌, if◌then◌else◌, arith, Bool,
}
use sane_in_the_membrane.Common.Exec.{Exec, ok, ◌>>=◌}
use sane_in_the_membrane.Files.FileSystem.{FileSystem}
use sane_in_the_membrane.Files.FileRw.{FileRw, exists}
use text.Mathlib.TextPositions.{eq_refl}
use sane_in_the_membrane.Session.Item.{ImageItemSerialized}
use sane_in_the_membrane.Session.Store.{remove_session}
use sane_in_the_membrane.Session.Restore.{
  Answer, Restored, show_event, show_event-missing, save_pages,
}

pub record SessionView : Type 0 where
  pub fs : FileSystem
  pub session_saving_disabled : Bool

-- The program starts; the window is shown; the pages become those listed, by an addition, a
-- removal, a move or a turn; the document is saved as a PDF file.
pub data ViewEvent : Type 0 where
  started : ViewEvent
  shown : Answer → ViewEvent
  changed : List ImageItemSerialized → ViewEvent
  document_saved : ViewEvent

abbrev pub after_show : SessionView → Restored → SessionView
after_show v r = record v {
  session_saving_disabled = if r.saving_enabled then false else v.session_saving_disabled;
}

module _ (version base fuel : ℕ) (file : FileRw) where
  unfoldable pub view_step : SessionView → ViewEvent → Exec SessionView
  view_step v started = ok (record v { session_saving_disabled = true })
  view_step v (shown answer) =
      show_event version base fuel answer file v.fs >>= λ r. ok (after_show v r)
  view_step v (changed items) =
      ok (record v { fs = save_pages version v.session_saving_disabled file items v.fs })
  view_step v document_saved = ok (record v { fs = remove_session file v.fs })

  unfoldable pub view_run : SessionView → List ViewEvent → Exec SessionView
  unfolding view_step
  view_run v [] = ok v
  view_run v (e ∷ events) = view_step v e >>= λ v'. view_run v' events

  -- No session file, and nothing that would write one.
  abbrev pub IsUnsaved : SessionView → Type 0
  IsUnsaved v = (exists file v.fs ≡ false) × (v.session_saving_disabled ≡ true)

  step-IsUnsaved :
      (v : SessionView) (e : ViewEvent)
      → IsUnsaved v
      → (v' : SessionView) × (view_step v e ≡ ok v') × IsUnsaved v'
  unfolding view_step save_pages remove_session exists
  step-IsUnsaved v started u = (record v { session_saving_disabled = true }, refl, (u.0, refl))
  step-IsUnsaved v (shown answer) u =
      (v, simp (show_event-missing version base fuel answer file v.fs u.0), u)
  step-IsUnsaved v (changed items) u = (v, rw u.1 refl, u)
  step-IsUnsaved v document_saved u =
      (record v { fs = remove_session file v.fs }, refl, (ground (arith, eq_refl file.path), u.1))

  -- While there is no session file, no run of the program makes one: whatever is scanned, shown,
  -- saved or restarted, the file stays absent and saving stays disabled.
  pub view_run-IsUnsaved :
      (v : SessionView) (events : List ViewEvent)
      → IsUnsaved v
      → (v' : SessionView) × (view_run v events ≡ ok v') × IsUnsaved v'
  unfolding view_run
  view_run-IsUnsaved v [] u = (v, refl, u)
  view_run-IsUnsaved v (e ∷ events) u =
      let (v₁, e₁, u₁) = step-IsUnsaved v e u in
      let (v₂, e₂, u₂) = view_run-IsUnsaved v₁ events u₁ in (v₂, rw e₁ e₂, u₂)
