-- ===== src/Panel.antt =====
-- The controls of the client that choose a scanner: `CDeviceList`
-- (gui-app/src/Service/DeviceList.{hpp,cpp}), `CScannerSelect`, `CRefreshButton` and `CScanButton`
-- of gui-app/src/Ui, with the calls of `CGetScannersService` and `CRefreshScannersService` between
-- them and the swap of the services in `Globals::change_channel`. Signals reach their slots at once.
pub mod Listed
pub mod Refreshing
pub mod Scanning
pub mod Selected
mod Runs
use Prim.Native.String.{String, ◌++◌ as str_append}
use sane_in_the_membrane.Common.{
  ℕ, ◌+◌, ◌-◌, Bool, true, false, List, [], ◌∷◌, ◌++◌, Option, none, some, ltb, ◌==◌, if◌then◌else◌,
  length, get_elem?,
}
use sane_in_the_membrane.Common.Exec.{Exec, ok, fault, ◌>>=◌}
use sane_in_the_membrane.Sane.Backend.{RawDevice}
use sane_in_the_membrane.Service.{ScannerInfo}

pub record ScannerItem : Type 0 where
  pub scanner_name : String
  pub scanner_display_name : String

-- A text that the server did not set is empty.
abbrev pub vendor_of : Option RawDevice → String
vendor_of none = ""
vendor_of (some raw) = raw.vendor

abbrev pub model_of : Option RawDevice → String
model_of none = ""
model_of (some raw) = raw.model

unfoldable pub new_scanner_item : ScannerInfo → ScannerItem
new_scanner_item info = record {
  scanner_name = info.name;
  scanner_display_name =
      str_append (vendor_of info.description) (str_append " " (model_of info.description));
}

-- `shown` and `current` are the items of the combo box and the index of the one selected.
-- `refreshes` and `gets` count the calls on the present channel that are not answered, `scanning` is
-- `m_in_progress` of the present reader, and `scan_requests` the scans that it was asked for.
pub record Panel : Type 0 where
  pub scanners : List ScannerItem
  pub shown : List ScannerItem
  pub current : Option ℕ
  pub refresh_enabled : Bool
  pub refresh_text : String
  pub scan_enabled : Bool
  pub refreshes : ℕ
  pub gets : ℕ
  pub scanning : Bool
  pub scan_requests : List String
  pub messages : List String

abbrev pub new_panel : Panel
new_panel = record {
  scanners = [];
  shown = [];
  current = none;
  refresh_enabled = true;
  refresh_text = "Refresh";
  scan_enabled = false;
  refreshes = 0;
  gets = 0;
  scanning = false;
  scan_requests = [];
  messages = [];
}

-- The first item that is added to an empty combo box becomes the current one.
abbrev pub first_index : Option ℕ → Option ℕ
first_index none = some 0
first_index (some i) = some i

abbrev pub add_item : ScannerItem → Panel → Panel
add_item item p = record p { shown = p.shown ++ (item ∷ []); current = first_index p.current }

unfoldable pub add_items : List ScannerItem → Panel → Panel
add_items [] p = p
add_items (item ∷ items) p = add_items items (add_item item p)

unfoldable pub display_items : List ScannerItem → Panel → Panel
unfolding add_items
display_items items p = add_items items (record p { shown = []; current = none })

abbrev pub is_empty : List ScannerItem → Bool
is_empty [] = true
is_empty (item ∷ items) = false

abbrev pub not_empty : List ScannerItem → Bool
not_empty [] = false
not_empty (item ∷ items) = true

-- `sig_scanners_changed` and its two slots.
unfoldable pub scanners_changed : Panel → Panel
unfolding display_items
scanners_changed p = record (display_items p.scanners p) { scan_enabled = not_empty p.scanners }

unfoldable pub add_scanner_item : ScannerItem → Panel → Panel
unfolding scanners_changed
add_scanner_item item p = scanners_changed (record p { scanners = p.scanners ++ (item ∷ []) })

abbrev pub clear_internal : Panel → Panel
clear_internal p = record p { scanners = [] }

unfoldable pub emplace_items : List ScannerItem → Panel → Panel
emplace_items [] p = p
emplace_items (item ∷ items) p =
    emplace_items items (record p { scanners = p.scanners ++ (item ∷ []) })

unfoldable pub set_scanner_items : List ScannerItem → Panel → Panel
unfolding emplace_items scanners_changed
set_scanner_items items p = scanners_changed (emplace_items items (clear_internal p))

unfoldable pub clear : Panel → Panel
unfolding scanners_changed
clear p = scanners_changed (clear_internal p)

-- `CDeviceList::sl_get_scanners`.
unfoldable pub push_scanners : List ScannerInfo → List ScannerItem → List ScannerItem
unfolding new_scanner_item
push_scanners [] items = items
push_scanners (info ∷ infos) items = push_scanners infos (items ++ (new_scanner_item info ∷ []))

abbrev pub enable_button : Panel → Panel
enable_button p = record p { refresh_text = "Refresh"; refresh_enabled = true }

abbrev pub refreshing : Panel → Panel
refreshing p = record p { refresh_text = "Refreshing..."; refresh_enabled = false }

abbrev pub show_message : String → Panel → Panel
show_message m p = record p { messages = p.messages ++ (m ∷ []) }

-- `on_clicked_get_scanners`; a button that is disabled is not clicked.
unfoldable pub click_refresh : Panel → Panel
click_refresh p =
    if p.refresh_enabled then record (refreshing p) { refreshes = p.refreshes + 1 } else p

-- The answer to `RefreshScanners`, with its status.
abbrev pub refresh_answered : Bool → Panel → Panel
refresh_answered true p = record p { gets = p.gets + 1 }
refresh_answered false p = enable_button (show_message "Refresh failed" p)

-- The answer to `GetScanners`, which reaches the device list and then the button.
abbrev pub scanners_answered : Option (List ScannerInfo) → Panel → Panel
scanners_answered none p = enable_button (show_message "Failed to get scanners" p)
scanners_answered (some infos) p = enable_button (set_scanner_items (push_scanners infos []) p)

abbrev pub current_item : Option ℕ → List ScannerItem → Option ScannerItem
current_item none items = none
current_item (some i) items = get_elem? items i

abbrev pub current_data : Panel → Option ScannerItem
current_data p = current_item p.current p.shown

-- A scan that the reader is asked for while it is busy is dropped.
abbrev pub scan_requested : Option ScannerItem → Panel → Exec Panel
scan_requested none p = fault
scan_requested (some item) p =
    if p.scanning
    then ok p
    else ok
        (record p { scanning = true; scan_requests = p.scan_requests ++ (item.scanner_name ∷ []) })

-- `CScanButton::sl_clicked`: the name of the current item is read through its pointer.
unfoldable pub click_scan : Panel → Exec Panel
click_scan p =
    if p.scan_enabled
    then scan_requested (current_data p) (record p { scan_enabled = false })
    else ok p

-- `CScanButton::sl_sig_done`.
abbrev pub scan_answered : Bool → Panel → Panel
scan_answered true p = record p { scan_enabled = true }
scan_answered false p = record (show_message "Scan failed" p) { scan_enabled = true }

-- `Globals::change_channel`: the new services know no scanner, and no answer of the old ones is
-- heard; the widgets are not told.
unfoldable pub change_channel : Panel → Panel
change_channel p = record p { scanners = []; refreshes = 0; gets = 0; scanning = false }

pub data Event : Type 0 where
  refresh_clicked scan_clicked channel_changed : Event
  refresh_reply scan_done : Bool → Event
  scanners_reply : Option (List ScannerInfo) → Event
  chosen : ℕ → Event

-- An answer comes only to a call that waits for it, and an item is chosen that is shown.
unfoldable pub handle : Event → Panel → Exec Panel
unfolding click_refresh click_scan change_channel
handle refresh_clicked p = ok (click_refresh p)
handle scan_clicked p = click_scan p
handle channel_changed p = ok (change_channel p)
handle (refresh_reply success) p =
    if ltb 0 p.refreshes
    then ok (refresh_answered success (record p { refreshes = p.refreshes - 1 }))
    else ok p
handle (scan_done success) p =
    if p.scanning then ok (scan_answered success (record p { scanning = false })) else ok p
handle (scanners_reply answer) p =
    if ltb 0 p.gets then ok (scanners_answered answer (record p { gets = p.gets - 1 })) else ok p
handle (chosen i) p = if ltb i (length p.shown) then ok (record p { current = some i }) else ok p

unfoldable pub handle_all : List Event → Panel → Exec Panel
unfolding handle
handle_all [] p = ok p
handle_all (e ∷ es) p = handle e p >>= λ p'. handle_all es p'
