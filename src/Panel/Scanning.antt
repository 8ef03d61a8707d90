-- ===== src/Panel/Scanning.antt =====
-- The scan button: what it reads when it is clicked.
use sane_in_the_membrane.Common.{
  ℕ, ◌<◌, zero, suc, get_elem?, ◌≡◌, ◌≢◌, refl, inl, inr, Bool-cases, Bool, true, false, List, [],
  ◌∷◌, Option, none, some, All, length, arith,
}
use sane_in_the_membrane.Common.Exec.{fault, Returns, Returns-bind}
use sane_in_the_membrane.Panel.{
  ScannerItem, Panel, current_item, click_scan, Event, refresh_clicked, scan_clicked,
  channel_changed, refresh_reply, scan_done, scanners_reply, chosen, handle, handle_all,
}
use sane_in_the_membrane.Panel.Listed.{handle-scanners_reply}

-- The server's answer names a scanner.
abbrev pub NamesScanner : Event → Type 0
NamesScanner (scanners_reply (some [])) = ⊥
NamesScanner e = Unit

abbrev CurrentIn : Option ℕ → ℕ → Type 0
CurrentIn none n = n ≡ 0
CurrentIn (some i) n = i < n

-- The current item is shown, and without items nothing can be or is being scanned.
pub record IsReady (p : Panel) : Type 0 where
  pub in_range : CurrentIn p.current (length p.shown)
  pub idle_if_empty : length p.shown ≡ 0 → (p.scan_enabled ≡ false) × (p.scanning ≡ false)

get_elem?-some {ℓ} :
    {A : Type ℓ} (xs : List A) (i : ℕ) → i < length xs → (a : A) × (get_elem? xs i ≡ some a)
get_elem?-some [] i h = elim h [ ]
get_elem?-some (x ∷ xs) zero h = (x, refl)
get_elem?-some (x ∷ xs) (suc i) h = get_elem?-some xs i (omega arith)

current_item-some :
    (c : Option ℕ) (items : List ScannerItem)
    → CurrentIn c (length items)
    → length items ≢ 0
    → (item : ScannerItem) × (current_item c items ≡ some item)
current_item-some none items h n = absurd (n h)
current_item-some (some i) items h n = get_elem?-some items i h

click_scan-IsReady : (p : Panel) → IsReady p → Returns IsReady (click_scan p)
unfolding click_scan
click_scan-IsReady p r = elim (Bool-cases p.scan_enabled) [
  | inr e ↦ ground arith
  | inl e ↦
      let (item, found) =
        current_item-some p.current p.shown r.in_range (λ n. cc (e, (r.idle_if_empty n).0)) in
      rw (e, found) (ground arith)
]

handle-IsReady : (e : Event) (p : Panel) → NamesScanner e → IsReady p → Returns IsReady (handle e p)
unfolding handle
handle-IsReady refresh_clicked p c r = ground arith
handle-IsReady scan_clicked p c r = click_scan-IsReady p r
handle-IsReady channel_changed p c r = ground arith
handle-IsReady (refresh_reply true) p c r = ground arith
handle-IsReady (refresh_reply false) p c r = ground arith
handle-IsReady (scan_done true) p c r = ground arith
handle-IsReady (scan_done false) p c r = ground arith
handle-IsReady (scanners_reply none) p c r = ground arith
handle-IsReady (scanners_reply (some [])) p c r = absurd c
handle-IsReady (scanners_reply (some (info ∷ infos))) p c r =
    rw (handle-scanners_reply (info ∷ infos) p) (ground arith)
handle-IsReady (chosen i) p c r = ground arith

-- If every list that the server sends names a scanner, then from a panel whose current item is shown
-- no events, swaps of the services included, lead to a read through a null pointer, and the panel
-- stays so.
pub handle_all-IsReady :
    (es : List Event) (p : Panel)
    → All NamesScanner es
    → IsReady p
    → Returns IsReady (handle_all es p)
unfolding handle_all
handle_all-IsReady [] p c r = r
handle_all-IsReady (e ∷ es) p c r =
    Returns-bind IsReady (handle e p) (λ p'. handle_all es p') (handle-IsReady e p c.0 r)
      (λ p' r'. handle_all-IsReady es p' c.1 r')

-- If a scan is running and an empty list comes for a call that waits for it, then the end of the
-- scan, successful or not, enables the scan button over an empty combo box, and a click on it reads
-- through a null pointer.
pub handle_all-fault :
    (p : Panel) (success : Bool)
    → p.scanning ≡ true
    → 0 < p.gets
    → handle_all (scanners_reply (some []) ∷ scan_done success ∷ scan_clicked ∷ []) p ≡ fault
unfolding handle_all handle click_scan
handle_all-fault p success s g = ground (arith, handle-scanners_reply [] p)
