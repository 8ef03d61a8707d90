-- ===== src/Panel/Refreshing.antt =====
-- The refresh button and the calls that it waits for.
use sane_in_the_membrane.Common.{
  ◌+◌, ◌≡◌, true, false, List, [], ◌∷◌, none, some, All, if◌then◌else◌, arith,
}
use sane_in_the_membrane.Common.Exec.{Ensures, Ensures-bind, Ensures-map}
use sane_in_the_membrane.Panel.{
  Panel, change_channel, Event, refresh_clicked, scan_clicked, channel_changed, refresh_reply,
  scan_done, scanners_reply, chosen, handle, handle_all,
}
use sane_in_the_membrane.Panel.Listed.{handle-scanners_reply}

-- The services are kept.
abbrev pub KeepsChannel : Event → Type 0
KeepsChannel channel_changed = ⊥
KeepsChannel e = Unit

-- The button is disabled exactly while one call is in flight.
pub record IsWaiting (p : Panel) : Type 0 where
  pub in_flight : p.refreshes + p.gets ≡ (if p.refresh_enabled then 0 else 1)

handle-IsWaiting :
    (e : Event) (p : Panel) → KeepsChannel e → IsWaiting p → Ensures IsWaiting (handle e p)
unfolding handle
handle-IsWaiting refresh_clicked p c w = ground arith
handle-IsWaiting scan_clicked p c w = ground arith
handle-IsWaiting channel_changed p c w = absurd c
handle-IsWaiting (refresh_reply true) p c w = ground arith
handle-IsWaiting (refresh_reply false) p c w = ground arith
handle-IsWaiting (scan_done true) p c w = ground arith
handle-IsWaiting (scan_done false) p c w = ground arith
handle-IsWaiting (scanners_reply none) p c w = ground arith
handle-IsWaiting (scanners_reply (some infos)) p c w =
    rw (handle-scanners_reply infos p) (ground arith)
handle-IsWaiting (chosen i) p c w = ground arith

-- As long as the services are kept, whatever the user does and the server answers, the refresh
-- button is disabled exactly while one call is in flight, in every panel that such events reach from
-- one where this holds.
pub handle_all-IsWaiting :
    (es : List Event) (p : Panel)
    → All KeepsChannel es
    → IsWaiting p
    → Ensures IsWaiting (handle_all es p)
unfolding handle_all
handle_all-IsWaiting [] p c w = w
handle_all-IsWaiting (e ∷ es) p c w =
    Ensures-bind IsWaiting (handle e p) (λ p'. handle_all es p') (handle-IsWaiting e p c.0 w)
      (λ p' w'. handle_all-IsWaiting es p' c.1 w')

-- Nothing is in flight and the button is disabled.
record IsDead (p : Panel) : Type 0 where
  disabled : p.refresh_enabled ≡ false
  no_refresh : p.refreshes ≡ 0
  no_get : p.gets ≡ 0

handle-IsDead : (e : Event) (p : Panel) → IsDead p → Ensures IsDead (handle e p)
unfolding handle
handle-IsDead refresh_clicked p d = ground arith
handle-IsDead scan_clicked p d = ground arith
handle-IsDead channel_changed p d = ground arith
handle-IsDead (refresh_reply true) p d = ground arith
handle-IsDead (refresh_reply false) p d = ground arith
handle-IsDead (scan_done true) p d = ground arith
handle-IsDead (scan_done false) p d = ground arith
handle-IsDead (scanners_reply none) p d = ground arith
handle-IsDead (scanners_reply (some infos)) p d = rw (handle-scanners_reply infos p) (ground arith)
handle-IsDead (chosen i) p d = ground arith

handle_all-IsDead : (es : List Event) (p : Panel) → IsDead p → Ensures IsDead (handle_all es p)
unfolding handle_all
handle_all-IsDead [] p d = d
handle_all-IsDead (e ∷ es) p d =
    Ensures-bind IsDead (handle e p) (λ p'. handle_all es p') (handle-IsDead e p d)
      (λ p' d'. handle_all-IsDead es p' d')

change_channel-IsDead : (p : Panel) → p.refresh_enabled ≡ false → IsDead (change_channel p)
unfolding change_channel
change_channel-IsDead p h = ground arith

-- If the services are swapped while the refresh button is disabled, it is never enabled again,
-- whatever happens afterwards, up to a fault.
pub handle_all-channel_changed :
    (p : Panel) (es : List Event)
    → p.refresh_enabled ≡ false
    → Ensures (λ p'. p'.refresh_enabled ≡ false) (handle_all (channel_changed ∷ es) p)
unfolding handle_all handle
handle_all-channel_changed p es h =
    Ensures-map (λ p'. p'.refresh_enabled ≡ false) (handle_all es (change_channel p))
      (handle_all-IsDead es (change_channel p) (change_channel-IsDead p h)) (λ p' d. d.disabled)
