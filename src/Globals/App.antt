-- ===== src/Globals/App.antt =====
-- The life of `CMainApp` (gui-app/src/Ui/MainApp.hpp): who hears the signals of which services.
use mathlib.Core.Path.{subst}
use sane_in_the_membrane.Common.{
  ℕ, suc, ◌+◌, ◌≡◌, refl, ap, true, false, List, [], ◌∷◌, some, ◌==◌, ◌&&◌, if◌then◌else◌, arith,
}
use sane_in_the_membrane.Common.Exec.{ok, Returns, Returns-ok}
use sane_in_the_membrane.Watcher.{ConnectivityState}
use sane_in_the_membrane.Watcher.Thread.{
  looping, WatcherService, new_service, start, stop, watcher_turn,
}
use sane_in_the_membrane.Globals.{
  state_change_watcher, device_list, get_scanner_service, refresh_scanner_service,
  scan_response_reader, Signal, sig_channel_state_changed, sig_stopping_auto_discovery,
  sig_scanners_changed, sig_get_scanners, sig_get_scanners_failed, sig_refresh_scanners,
  sig_refresh_scanners_failed, sig_done, sig_progress, Receiver, proxy, device_list_slot,
  Connection, Globals, proxies_of, new_globals, init, set_watcher, make_proxies, start_watcher,
  stop_watcher, AppEvent, server_found, watcher_turned, app_event, app_events, run_app,
}
use sane_in_the_membrane.Globals.Wiring.{
  wired, at_generation, Watching, swapped, change_channel-at_generation, swapped-Watching,
}

abbrev signal_code : Signal → ℕ
signal_code sig_channel_state_changed = 0
signal_code sig_stopping_auto_discovery = 1
signal_code sig_scanners_changed = 2
signal_code sig_get_scanners = 3
signal_code sig_get_scanners_failed = 4
signal_code sig_refresh_scanners = 5
signal_code sig_refresh_scanners_failed = 6
signal_code sig_done = 7
signal_code sig_progress = 8

-- Who hears a signal that a service of a generation emits.
abbrev pub hearers : Signal → ℕ → List Connection → List Receiver
hearers signal g [] = []
hearers signal g (c ∷ connections) =
    let rest = hearers signal g connections in
    if signal_code c.signal == signal_code signal && c.generation == g
    then c.receiver ∷ rest
    else rest

-- Who should: the proxy of the sender, and the device list of the generation for the scanners.
abbrev pub audience : Signal → ℕ → List Receiver
audience sig_channel_state_changed g = proxy state_change_watcher ∷ []
audience sig_stopping_auto_discovery g = proxy state_change_watcher ∷ []
audience sig_scanners_changed g = proxy device_list ∷ []
audience sig_get_scanners g = device_list_slot g ∷ proxy get_scanner_service ∷ []
audience sig_get_scanners_failed g = device_list_slot g ∷ proxy get_scanner_service ∷ []
audience sig_refresh_scanners g = proxy refresh_scanner_service ∷ []
audience sig_refresh_scanners_failed g = proxy refresh_scanner_service ∷ []
audience sig_done g = proxy scan_response_reader ∷ []
audience sig_progress g = proxy scan_response_reader ∷ []

hearers-wired :
    (signal : Signal) (i g : ℕ)
    → hearers signal i (wired g) ≡ (if g == i then audience signal g else [])
hearers-wired sig_channel_state_changed i g = ground arith
hearers-wired sig_stopping_auto_discovery i g = ground arith
hearers-wired sig_scanners_changed i g = ground arith
hearers-wired sig_get_scanners i g = ground arith
hearers-wired sig_get_scanners_failed i g = ground arith
hearers-wired sig_refresh_scanners i g = ground arith
hearers-wired sig_refresh_scanners_failed i g = ground arith
hearers-wired sig_done i g = ground arith
hearers-wired sig_progress i g = ground arith

-- How many servers were found.
abbrev pub found : List AppEvent → ℕ
found [] = 0
found (server_found ∷ events) = suc (found events)
found (watcher_turned i state ∷ events) = found events

abbrev turned : ℕ → ConnectivityState → (ℕ → WatcherService) → ℕ → WatcherService
turned i state watchers j = if i == j then (watcher_turn state (watchers i)).1 else watchers j

-- A turn of a thread that ended, or was not made, does nothing.
turned-Watching :
    (g i : ℕ) (state : ConnectivityState) (watchers : ℕ → WatcherService)
    → Watching g watchers
    → Watching g (turned i state watchers)
unfolding watcher_turn
turned-Watching g i state watchers w = record {
  started = ground (arith, w.started, w.watches);
  watches = ground (arith, w.started, w.watches);
  ended = λ j h. ground (arith, h, w.ended j);
  unmade = λ j h. ground (arith, h, w.unmade j);
}

abbrev IsAt : ℕ → Globals → Type 0
IsAt g globals =
    (watchers : ℕ → WatcherService) × (globals ≡ at_generation g watchers) × Watching g watchers

app_events-IsAt :
    (events : List AppEvent) (g n : ℕ) (watchers : ℕ → WatcherService)
    → n ≡ g + found events
    → Watching g watchers
    → Returns (IsAt n) (app_events events (at_generation g watchers))
unfolding app_events app_event
app_events-IsAt [] g n watchers e w = (
  watchers,
  ap (λ k. at_generation k watchers) (omega (arith, e)),
  subst (λ k. Watching k watchers) (omega (arith, e)) w,
)
app_events-IsAt (server_found ∷ events) g n watchers e w =
    rw (change_channel-at_generation g watchers w) (
      app_events-IsAt events (suc g) n (swapped g watchers) (omega (arith, e))
        (swapped-Watching g watchers w))
app_events-IsAt (watcher_turned i state ∷ events) g n watchers e w =
    app_events-IsAt events g n (turned i state watchers) e (turned-Watching g i state watchers w)

first_watchers : ℕ → WatcherService
first_watchers i =
    if 0 == i then record new_service { started = true; thread = some looping } else new_service

first-Watching : Watching 0 first_watchers
unfolding first_watchers
first-Watching = record {
  started = refl;
  watches = refl;
  ended = λ i h. absurd (omega (arith, h));
  unmade = λ i h. ground (arith, h);
}

start_watcher-init : start_watcher (init new_globals) ≡ ok (at_generation 0 first_watchers)
unfolding start_watcher init make_proxies start first_watchers
start_watcher-init = refl

-- Whatever servers are found and whatever the threads of the watchers do in between, the program runs
-- without a fault and no join blocks; in the end the services and the proxies are those of the last
-- server, each of their signals is heard once by the proxy of its sender, and by the device list if
-- it is about the scanners; the signals of earlier services are heard by nobody; and all watchers
-- are stopped.
pub run_app-hearers :
    (events : List AppEvent)
    → (globals : Globals) × (run_app events ≡ ok globals)
      × (globals.services ≡ some (found events))
      × (globals.proxies ≡ some (proxies_of (found events)))
      × ((signal : Signal) (i : ℕ)
          → hearers signal i globals.connections
            ≡ (if found events == i then audience signal (found events) else []))
      × ((i : ℕ) → (globals.watchers i).started ≡ false)
unfolding run_app stop_watcher stop
run_app-hearers events =
    let n = found events in
    let (globals, e, (watchers, same, w)) =
      Returns-ok (IsAt n) (app_events events (at_generation 0 first_watchers))
        (app_events-IsAt events 0 n first_watchers (omega arith) first-Watching) in
    (
      set_watcher n (stop (watchers n)) (at_generation n watchers),
      rw (start_watcher-init, e, same) refl,
      refl,
      refl,
      λ signal i. hearers-wired signal i n,
      λ i. ground (arith, w.ended i, w.unmade i),
    )
