-- ===== src/Globals.antt =====
-- The services of the program and their proxies: gui-app/src/Utils/Globals.hpp, the five proxies of
-- gui-app/src/Utils/ServiceProxy, and `CMainApp` of gui-app/src/Ui/MainApp.hpp. A set of services
-- that was made together is a generation, counted from 0; Qt's connections are a list. gRPC's
-- channels are left out.
pub mod Wiring
pub mod App
pub mod Searching
pub mod Search
mod Runs
use sane_in_the_membrane.Common.{
  ℕ, suc, ◌≡◌, Bool, true, false, List, [], ◌∷◌, ◌++◌, Option, none, some, ◌==◌, ◌&&◌,
  if◌then◌else◌,
}
use sane_in_the_membrane.Common.Exec.{Exec, ok, fault, stuck, ◌>>=◌}
use sane_in_the_membrane.Watcher.{ConnectivityState}
use sane_in_the_membrane.Watcher.Thread.{
  Thread, looping, returned, WatcherService, new_service, start, stop, watcher_turn,
}

-- The services that have a proxy.
pub data Service : Type 0 where
  state_change_watcher device_list get_scanner_service refresh_scanner_service : Service
  scan_response_reader : Service

abbrev pub service_code : Service → ℕ
service_code state_change_watcher = 0
service_code device_list = 1
service_code get_scanner_service = 2
service_code refresh_scanner_service = 3
service_code scan_response_reader = 4

pub data Signal : Type 0 where
  sig_channel_state_changed sig_stopping_auto_discovery sig_scanners_changed : Signal
  sig_get_scanners sig_get_scanners_failed sig_refresh_scanners : Signal
  sig_refresh_scanners_failed sig_done sig_progress : Signal

-- The service that emits a signal.
abbrev pub sender : Signal → Service
sender sig_channel_state_changed = state_change_watcher
sender sig_stopping_auto_discovery = state_change_watcher
sender sig_scanners_changed = device_list
sender sig_get_scanners = get_scanner_service
sender sig_get_scanners_failed = get_scanner_service
sender sig_refresh_scanners = refresh_scanner_service
sender sig_refresh_scanners_failed = refresh_scanner_service
sender sig_done = scan_response_reader
sender sig_progress = scan_response_reader

-- A proxy passes a signal on under the same name; the device list of a generation has a slot.
pub data Receiver : Type 0 where
  proxy : Service → Receiver
  device_list_slot : ℕ → Receiver

pub record Connection : Type 0 where
  pub signal : Signal
  pub generation : ℕ
  pub receiver : Receiver

-- `CDeviceList(service)` of a generation.
abbrev pub device_list_connections : ℕ → List Connection
device_list_connections g =
    record { signal = sig_get_scanners_failed; generation = g; receiver = device_list_slot g }
    ∷ record { signal = sig_get_scanners; generation = g; receiver = device_list_slot g }
    ∷ []

abbrev pub to_proxy : Signal → ℕ → Connection
to_proxy signal g = record { signal = signal; generation = g; receiver = proxy (sender signal) }

-- `set_connections` of each proxy.
abbrev pub set_connections : Service → ℕ → List Connection
set_connections state_change_watcher g =
    to_proxy sig_channel_state_changed g ∷ to_proxy sig_stopping_auto_discovery g ∷ []
set_connections device_list g = to_proxy sig_scanners_changed g ∷ []
set_connections get_scanner_service g =
    to_proxy sig_get_scanners g ∷ to_proxy sig_get_scanners_failed g ∷ []
set_connections refresh_scanner_service g =
    to_proxy sig_refresh_scanners g ∷ to_proxy sig_refresh_scanners_failed g ∷ []
set_connections scan_response_reader g = to_proxy sig_done g ∷ to_proxy sig_progress g ∷ []

-- `QObject::disconnect` of all that a service of a generation sends.
abbrev pub disconnect : Service → ℕ → List Connection → List Connection
disconnect service g [] = []
disconnect service g (c ∷ connections) =
    let rest = disconnect service g connections in
    if service_code (sender c.signal) == service_code service && c.generation == g
    then rest
    else c ∷ rest

-- A service that is destroyed neither sends nor receives.
abbrev pub involves : ℕ → Receiver → Bool
involves g (proxy service) = false
involves g (device_list_slot h) = h == g

abbrev pub drop_generation : ℕ → List Connection → List Connection
drop_generation g [] = []
drop_generation g (c ∷ connections) =
    let rest = drop_generation g connections in
    if c.generation == g then rest else if involves g c.receiver then rest else c ∷ rest

-- The generation whose service each proxy holds.
pub record Proxies : Type 0 where
  pub watcher_proxy : ℕ
  pub device_list_proxy : ℕ
  pub get_scanner_proxy : ℕ
  pub refresh_scanner_proxy : ℕ
  pub reader_proxy : ℕ

pub record Globals : Type 0 where
  pub initialized : Bool
  pub services : Option ℕ
  pub proxies : Option Proxies
  pub connections : List Connection
  pub watchers : ℕ → WatcherService
  pub generations : ℕ

abbrev pub new_globals : Globals
new_globals = record {
  initialized = false;
  services = none;
  proxies = none;
  connections = [];
  watchers = λ i. new_service;
  generations = 0;
}

abbrev pub set_watcher : ℕ → WatcherService → Globals → Globals
set_watcher g w globals = record globals {
  watchers = λ i. if g == i then w else globals.watchers i;
}

-- `CServices(...)`, less the channel and the file manager, whose directory is taken to exist.
abbrev pub make_services : Globals → Globals
make_services globals = record globals {
  connections = globals.connections ++ device_list_connections globals.generations;
  generations = suc globals.generations;
}

-- `CServiceProxyBase::replace_service`.
abbrev pub replace_service : Service → ℕ → ℕ → List Connection → List Connection
replace_service service old new connections =
    disconnect service old connections ++ set_connections service new

abbrev pub proxies_of : ℕ → Proxies
proxies_of g = record {
  watcher_proxy = g;
  device_list_proxy = g;
  get_scanner_proxy = g;
  refresh_scanner_proxy = g;
  reader_proxy = g;
}

unfoldable pub make_proxies : ℕ → Globals → Globals
make_proxies g globals = record globals {
  proxies = some (proxies_of g);
  connections =
      globals.connections
      ++ (set_connections state_change_watcher g
          ++ (set_connections device_list g
              ++ (set_connections get_scanner_service g
                  ++ (set_connections refresh_scanner_service g
                      ++ set_connections scan_response_reader g))));
}

unfoldable pub replace_services : Proxies → ℕ → List Connection → List Connection
replace_services p g connections = replace_service scan_response_reader p.reader_proxy g (
    replace_service refresh_scanner_service p.refresh_scanner_proxy g (
      replace_service get_scanner_service p.get_scanner_proxy g (
        replace_service device_list p.device_list_proxy g
          (replace_service state_change_watcher p.watcher_proxy g connections))))

-- A join waits for the thread: it does not return if nobody stopped the thread.
abbrev pub join : Option Thread → WatcherService → Exec WatcherService
join none w = ok w
join (some returned) w = ok w
join (some looping) w = if w.started then stuck else ok (record w { thread = some returned })

-- The end of the life of a generation.
unfoldable pub destroy_services : ℕ → Globals → Exec Globals
destroy_services g globals = join (globals.watchers g).thread (globals.watchers g) >>= λ w.
    ok (set_watcher g w (record globals { connections = drop_generation g globals.connections }))

unfoldable pub init : Globals → Globals
unfolding make_proxies
init globals =
    if globals.initialized
    then globals
    else record (make_proxies globals.generations (make_services globals)) {
      services = some globals.generations;
      initialized = true;
    }

-- The proxies are a null pointer before `init`.
abbrev pub swap_services : Option ℕ → Option Proxies → Globals → Exec Globals
swap_services (some old) (some p) globals =
    let new = globals.generations in
    let stopped = set_watcher old (stop (globals.watchers old)) (make_services globals) in
    start (stopped.watchers new) >>= λ started.
    destroy_services old (record (set_watcher new started stopped) {
      services = some new;
      proxies = some (proxies_of new);
      connections = replace_services p new stopped.connections;
    })
swap_services none p globals = fault
swap_services (some old) none globals = fault

unfoldable pub change_channel : Globals → Exec Globals
unfolding destroy_services
change_channel globals =
    if globals.initialized then swap_services globals.services globals.proxies globals else fault

-- `channel_state_change_watcher()`, and `start` or `stop` on what it returns.
abbrev pub at_watcher : Option ℕ → (WatcherService → Exec WatcherService) → Globals → Exec Globals
at_watcher none f globals = fault
at_watcher (some g) f globals = f (globals.watchers g) >>= λ w. ok (set_watcher g w globals)

unfoldable pub start_watcher : Globals → Exec Globals
start_watcher globals =
    if globals.initialized then at_watcher globals.services start globals else fault

unfoldable pub stop_watcher : Globals → Exec Globals
stop_watcher globals =
    if globals.initialized then at_watcher globals.services (λ w. ok (stop w)) globals else fault

-- While the program runs: a server is found, or the thread of a watcher goes round its loop.
pub data AppEvent : Type 0 where
  server_found : AppEvent
  watcher_turned : ℕ → ConnectivityState → AppEvent

unfoldable pub app_event : AppEvent → Globals → Exec Globals
app_event server_found globals = change_channel globals
app_event (watcher_turned i state) globals =
    ok (set_watcher i (watcher_turn state (globals.watchers i)).1 globals)

unfoldable pub app_events : List AppEvent → Globals → Exec Globals
unfolding app_event
app_events [] globals = ok globals
app_events (e ∷ events) globals = app_event e globals >>= λ globals'. app_events events globals'

-- `CMainApp(app)`, `exec` and `~CMainApp`.
unfoldable pub run_app : List AppEvent → Exec Globals
unfolding app_events
run_app events = do
  started ← start_watcher (init new_globals)
  ended ← app_events events started
  stop_watcher ended
