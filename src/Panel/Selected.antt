-- ===== src/Panel/Selected.antt =====
-- A scanner that the user picks, from the list of the SANE library to the scan that is asked for.
use Prim.Native.String.{String}
use sane_in_the_membrane.Common.{
  ℕ, ◌+◌, ◌≤◌, zero, suc, get_elem?, ◌≡◌, refl, true, false, List, [], ◌∷◌, ◌++◌, some, map, ◌∙◌,
  lt→ltb, get_elem?-length, length, arith,
}
use sane_in_the_membrane.Common.Exec.{ok, fault, stuck, ◌>>=◌}
use sane_in_the_membrane.Service.{ScannerInfo}
use sane_in_the_membrane.Panel.{
  ScannerItem, new_scanner_item, not_empty, Panel, click_refresh, click_scan, Event,
  refresh_clicked, scan_clicked, refresh_reply, scanners_reply, chosen, handle, handle_all,
}
use sane_in_the_membrane.Panel.Listed.{handle-scanners_reply, showing}
use sane_in_the_membrane.Sane.Backend.{Backend, RawDevice}
use sane_in_the_membrane.Service.{ScannerService, refresh_devices, get_scanners, scan_device}
use sane_in_the_membrane.Service.Find.{
  info, first_raw, map_option, Answers, refresh_devices-get_scanners,
}

get_elem?-map {ℓ κ} :
    {A : Type ℓ} {B : Type κ} (f : A → B) (xs : List A) (i : ℕ) (a : A)
    → get_elem? xs i ≡ some a
    → get_elem? (map f xs) i ≡ some (f a)
get_elem?-map f [] i a e = cc
get_elem?-map f (x ∷ xs) zero a e = cc
get_elem?-map f (x ∷ xs) (suc i) a e = get_elem?-map f xs i a e

not_empty-get_elem? :
    (items : List ScannerItem) (i : ℕ) (item : ScannerItem)
    → get_elem? items i ≡ some item
    → not_empty items ≡ true
not_empty-get_elem? [] i item e = cc
not_empty-get_elem? (x ∷ items) i item e = refl

-- Nothing is under way, and the button can be clicked.
pub record IsIdle (p : Panel) : Type 0 where
  pub clickable : p.refresh_enabled ≡ true
  pub no_refresh : p.refreshes ≡ 0
  pub no_get : p.gets ≡ 0
  pub no_scan : p.scanning ≡ false

-- A refresh that the server answers, a choice and a click.
abbrev pub refresh_and_scan : List ScannerInfo → ℕ → List Event
refresh_and_scan infos i =
    refresh_clicked
    ∷ refresh_reply true
    ∷ scanners_reply (some infos)
    ∷ chosen i
    ∷ scan_clicked
    ∷ []

abbrev pub after_scan : List ScannerItem → ℕ → String → Panel → Panel
after_scan items i name p = record (showing items p) {
  current = some i;
  refresh_text = "Refresh";
  refresh_enabled = true;
  scan_enabled = false;
  refreshes = 0;
  gets = 0;
  scanning = true;
  scan_requests = p.scan_requests ++ (name ∷ []);
}

-- The panel while it waits for the list.
abbrev asked : Panel → Panel
asked p = record p {
  refresh_text = "Refreshing...";
  refresh_enabled = false;
  refreshes = 0;
  gets = 1;
}

handle_all-append :
    (xs ys : List Event) (p : Panel)
    → handle_all (xs ++ ys) p ≡ (handle_all xs p >>= λ q. handle_all ys q)
unfolding handle_all
handle_all-append [] ys p = refl
handle_all-append (e ∷ xs) ys p =
    elim (handle e p)
      as (λ m.
        (m >>= λ q. handle_all (xs ++ ys) q)
        ≡ ((m >>= λ q. handle_all xs q) >>= λ q. handle_all ys q)) [
          | ok q ↦ handle_all-append xs ys q
          | fault ↦ refl
          | stuck ↦ refl
        ]

refreshed-asked :
    (p : Panel) → IsIdle p → handle_all (refresh_clicked ∷ refresh_reply true ∷ []) p ≡ ok (asked p)
unfolding handle_all handle click_refresh
refreshed-asked p d = ground arith

-- The panel with the answer.
abbrev answered : List ScannerItem → Panel → Panel
answered items p = record (showing items p) {
  gets = 0;
  refreshes = 0;
  refresh_text = "Refresh";
  refresh_enabled = true;
}

asked-answered :
    (p : Panel) (infos : List ScannerInfo)
    → handle_all (scanners_reply (some infos) ∷ []) (asked p)
      ≡ ok (answered (map new_scanner_item infos) p)
unfolding handle_all
asked-answered p infos = rw (handle-scanners_reply infos (asked p)) refl

answered-after_scan :
    (p : Panel) (items : List ScannerItem) (i : ℕ) (item : ScannerItem)
    → p.scanning ≡ false
    → get_elem? items i ≡ some item
    → handle_all (chosen i ∷ scan_clicked ∷ []) (answered items p)
      ≡ ok (after_scan items i item.scanner_name p)
unfolding handle_all handle click_scan
answered-after_scan p items i item n found =
    let enabled = not_empty-get_elem? items i item found in
    let bound = lt→ltb i (length items) (get_elem?-length items i item found) in
    simp (bound, enabled, found, n)

-- Picking an item.
handle_all-refresh_and_scan :
    (p : Panel) (infos : List ScannerInfo) (i : ℕ) (scanner : ScannerInfo)
    → IsIdle p
    → get_elem? infos i ≡ some scanner
    → handle_all (refresh_and_scan infos i) p
      ≡ ok (after_scan (map new_scanner_item infos) i scanner.name p)
unfolding new_scanner_item
handle_all-refresh_and_scan p infos i scanner d e =
    handle_all-append (refresh_clicked ∷ refresh_reply true ∷ [])
      (scanners_reply (some infos) ∷ chosen i ∷ scan_clicked ∷ []) p
    ∙ rw (refreshed-asked p d) (
        handle_all-append (scanners_reply (some infos) ∷ []) (chosen i ∷ scan_clicked ∷ [])
          (asked p)
        ∙ rw (asked-answered p infos) (
            answered-after_scan p (map new_scanner_item infos) i (new_scanner_item scanner)
              d.no_scan (get_elem?-map new_scanner_item infos i scanner e)))

-- From the SANE library to the scan that is asked for: if the library answers the server's refresh
-- with a list, then an idle panel that refreshes shows its scanners in order, and choosing one and
-- clicking requests a scan of its name, for which the server takes the first device of the list with
-- that name.
pub refresh_and_scan-scan_device :
    (b : Backend) (s : ScannerService b) (now later : ℕ) (raws : List RawDevice) (w : b.World)
    (p : Panel) (i : ℕ) (raw : RawDevice)
    → Answers b s now raws w
    → later ≤ now + 30
    → IsIdle p
    → get_elem? raws i ≡ some raw
    → (s' : ScannerService b) × (p' : Panel) × (refresh_devices b now s ≡ ok s')
      × (get_scanners b later s' ≡ ok (map info raws, s'))
      × (handle_all (refresh_and_scan (map info raws) i) p ≡ ok p')
      × (p'.shown ≡ map new_scanner_item (map info raws))
      × (p'.scan_requests ≡ p.scan_requests ++ (raw.name ∷ []))
      × ((scan_device b s' raw.name).0 ≡ map_option (first_raw raw.name raws))
refresh_and_scan-scan_device b s now later raws w p i raw a soon d e =
    let (s', refreshed, listed, found) =
      refresh_devices-get_scanners b s now later raws w raw.name a soon in
    (
      s',
      after_scan (map new_scanner_item (map info raws)) i raw.name p,
      refreshed,
      listed,
      handle_all-refresh_and_scan p (map info raws) i (info raw) d
          (get_elem?-map info raws i raw e),
      refl,
      refl,
      found,
    )
