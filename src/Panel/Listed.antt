-- ===== src/Panel/Listed.antt =====
-- What the loops of the device list and of the combo box leave: closed forms.
use sane_in_the_membrane.Common.{
  ℕ, ◌≡◌, refl, ap, ◌∙◌, true, List, [], ◌∷◌, ◌++◌, Option, none, some, map, append_assoc,
  append-nil, ltb, ◌-◌, if◌then◌else◌,
}
use sane_in_the_membrane.Common.Exec.{ok}
use sane_in_the_membrane.Service.{ScannerInfo}
use sane_in_the_membrane.Panel.{
  ScannerItem, new_scanner_item, Panel, first_index, add_item, clear_internal, add_items,
  display_items, not_empty, scanners_changed, emplace_items, set_scanner_items, push_scanners,
  scanners_reply, handle,
}

abbrev index_after : List ScannerItem → Option ℕ → Option ℕ
index_after [] current = current
index_after (item ∷ items) current = first_index current

index_after-first_index :
    (items : List ScannerItem) (c : Option ℕ) → index_after items (first_index c) ≡ first_index c
index_after-first_index [] c = refl
index_after-first_index (item ∷ items) none = refl
index_after-first_index (item ∷ items) (some i) = refl

add_items_lem :
    (items : List ScannerItem) (p : Panel)
    → add_items items p
      ≡ record p { shown = p.shown ++ items; current = index_after items p.current }
unfolding add_items
add_items_lem [] p = simp append-nil
add_items_lem (item ∷ items) p =
    add_items_lem items (add_item item p)
    ∙ simp (append_assoc, index_after-first_index items p.current)

emplace_items_lem :
    (items : List ScannerItem) (p : Panel)
    → emplace_items items p ≡ record p { scanners = p.scanners ++ items }
unfolding emplace_items
emplace_items_lem [] p = simp append-nil
emplace_items_lem (item ∷ items) p =
    emplace_items_lem items (record p { scanners = p.scanners ++ (item ∷ []) }) ∙ simp append_assoc

push_scanners_lem :
    (infos : List ScannerInfo) (items : List ScannerItem)
    → push_scanners infos items ≡ items ++ map new_scanner_item infos
unfolding push_scanners
push_scanners_lem [] items = simp append-nil
push_scanners_lem (info ∷ infos) items =
    push_scanners_lem infos (items ++ (new_scanner_item info ∷ []))
    ∙ append_assoc items (new_scanner_item info ∷ []) (map new_scanner_item infos)

-- The index that a combo box has when its items were added to an empty one.
abbrev pub first_of : List ScannerItem → Option ℕ
first_of [] = none
first_of (item ∷ items) = some 0

-- The panel that shows exactly the scanners it knows.
abbrev pub showing : List ScannerItem → Panel → Panel
showing items p = record p {
  scanners = items;
  shown = items;
  current = first_of items;
  scan_enabled = not_empty items;
}

index_after-none : (items : List ScannerItem) → index_after items none ≡ first_of items
index_after-none [] = refl
index_after-none (item ∷ items) = refl

scanners_changed_lem : (p : Panel) → scanners_changed p ≡ showing p.scanners p
unfolding scanners_changed display_items
scanners_changed_lem p =
    ap (λ (q : Panel). record q { scan_enabled = not_empty p.scanners })
      (add_items_lem p.scanners (record p { shown = []; current = none }))
    ∙ ap
        (λ (c : Option ℕ). record p {
          shown = p.scanners;
          current = c;
          scan_enabled = not_empty p.scanners;
        })
        (index_after-none p.scanners)

pub set_scanner_items_lem :
    (items : List ScannerItem) (p : Panel) → set_scanner_items items p ≡ showing items p
unfolding set_scanner_items
set_scanner_items_lem items p =
    ap scanners_changed (emplace_items_lem items (clear_internal p))
    ∙ scanners_changed_lem (record p { scanners = items })

pub sl_get_scanners_lem :
    (infos : List ScannerInfo) (p : Panel)
    → set_scanner_items (push_scanners infos []) p ≡ showing (map new_scanner_item infos) p
sl_get_scanners_lem infos p =
    ap (λ items. set_scanner_items items p) (push_scanners_lem infos [])
    ∙ set_scanner_items_lem (map new_scanner_item infos) p

-- An answer that was asked for shows its scanners and gives the refresh button back.
pub handle-scanners_reply :
    (infos : List ScannerInfo) (p : Panel)
    → handle (scanners_reply (some infos)) p ≡ (
        if ltb 0 p.gets
        then ok (record (showing (map new_scanner_item infos) p) {
          gets = p.gets - 1;
          refresh_text = "Refresh";
          refresh_enabled = true;
        })
        else ok p)
unfolding handle
handle-scanners_reply infos p = rw (sl_get_scanners_lem infos (record p { gets = p.gets - 1 })) refl
