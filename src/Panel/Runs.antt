-- ===== src/Panel/Runs.antt =====
-- Concrete panels, and the theorems at them.
use sane_in_the_membrane.Common.{◌≡◌, refl, true, false, List, [], ◌∷◌, some, arith}
use sane_in_the_membrane.Common.Exec.{ok, Ensures, Returns}
use sane_in_the_membrane.Sane.Mock.{mock_backend, mock_get_devices}
use sane_in_the_membrane.Scan.Sample.{flatbed, five_bytes}
use sane_in_the_membrane.Service.{ScannerService, refresh_devices, get_scanners, scan_device}
use sane_in_the_membrane.Service.Find.{Answers, info, map_option, first_raw}
use sane_in_the_membrane.Panel.{
  new_scanner_item, Panel, new_panel, display_items, add_items, scanners_changed, emplace_items,
  set_scanner_items, push_scanners, add_scanner_item, clear, click_refresh, click_scan, Event,
  refresh_clicked, scan_clicked, channel_changed, refresh_reply, scan_done, scanners_reply, handle,
  handle_all,
}
use sane_in_the_membrane.Panel.Refreshing.{
  IsWaiting, handle_all-IsWaiting, handle_all-channel_changed,
}
use sane_in_the_membrane.Panel.Scanning.{IsReady, handle_all-IsReady}
use sane_in_the_membrane.Panel.Selected.{refresh_and_scan, refresh_and_scan-scan_device}

abbrev first_events : List Event
first_events =
    refresh_clicked
    ∷ refresh_reply true
    ∷ scanners_reply (some (info flatbed ∷ []))
    ∷ scan_clicked
    ∷ refresh_clicked
    ∷ scan_done false
    ∷ []

-- The first events of a program whose user refreshes, scans and refreshes again.
abbrev second_refresh : Panel
second_refresh = record new_panel {
  scanners = new_scanner_item (info flatbed) ∷ [];
  shown = new_scanner_item (info flatbed) ∷ [];
  current = some 0;
  refresh_enabled = false;
  refresh_text = "Refreshing...";
  scan_enabled = true;
  refreshes = 1;
  scan_requests = flatbed.name ∷ [];
  messages = "Scan failed" ∷ [];
}

first_events_reach : handle_all first_events new_panel ≡ ok second_refresh
unfolding handle_all handle set_scanner_items push_scanners scanners_changed display_items add_items
    emplace_items click_refresh click_scan new_scanner_item
first_events_reach = refl

shown_name : (new_scanner_item (info flatbed)).scanner_display_name ≡ "acme one"
unfolding new_scanner_item
shown_name = refl

-- The operations that no control calls.
add_then_clear : clear (add_scanner_item (new_scanner_item (info flatbed)) new_panel) ≡ new_panel
unfolding clear add_scanner_item
add_then_clear = refl

handle_all-IsWaiting_example : Ensures IsWaiting (handle_all first_events new_panel)
handle_all-IsWaiting_example =
    handle_all-IsWaiting first_events new_panel (tt, (tt, (tt, (tt, (tt, (tt, tt))))))
      (record { in_flight = refl })

handle_all-channel_changed_example :
    Ensures
      (λ p'. p'.refresh_enabled ≡ false)
      (handle_all (channel_changed ∷ refresh_reply true ∷ refresh_clicked ∷ []) second_refresh)
handle_all-channel_changed_example =
    handle_all-channel_changed second_refresh (refresh_reply true ∷ refresh_clicked ∷ []) refl

handle_all-IsReady_example : Returns IsReady (handle_all first_events new_panel)
handle_all-IsReady_example =
    handle_all-IsReady first_events new_panel (tt, (tt, (tt, (tt, (tt, (tt, tt))))))
      (record { in_range = refl; idle_if_empty = λ e. (refl, refl) })

-- A scan is running, and the list is asked for again.
abbrev busy : Panel
busy = record second_refresh { scan_enabled = false; scanning = true; gets = 1; refreshes = 0 }

abbrev service : ScannerService mock_backend
service = record {
  heap = [];
  devices = [];
  running = [];
  known = [];
  last_device_fetch = 0;
  world = five_bytes;
}

answers : Answers mock_backend service 200 (flatbed ∷ []) five_bytes
unfolding mock_get_devices
answers = record { status = _; answer = refl; success = refl; late = omega arith }

refresh_and_scan-scan_device_example :
    (s' : ScannerService mock_backend) × (p' : Panel) × (refresh_devices mock_backend 200 service
      ≡ ok s')
    × (get_scanners mock_backend 210 s' ≡ ok (info flatbed ∷ [], s'))
    × (handle_all (refresh_and_scan (info flatbed ∷ []) 0) new_panel ≡ ok p')
    × (p'.shown ≡ new_scanner_item (info flatbed) ∷ [])
    × (p'.scan_requests ≡ flatbed.name ∷ [])
    × ((scan_device mock_backend s' flatbed.name).0
        ≡ map_option (first_raw flatbed.name (flatbed ∷ [])))
refresh_and_scan-scan_device_example =
    refresh_and_scan-scan_device mock_backend service 200 210 (flatbed ∷ []) five_bytes new_panel 0
      flatbed answers (omega arith)
      (record { clickable = refl; no_refresh = refl; no_get = refl; no_scan = refl }) refl
