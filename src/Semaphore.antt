-- ===== src/Semaphore.antt =====
-- The light that shows the connection to the server: `CSemaphoreLight` and `CSemaphoreWidget` of
-- gui-app/src/Ui/SemaphoreWidget.{hpp,cpp}. Its slots take the signals of the watcher and of the
-- finder; what is painted is the status.
pub mod Searches
mod Runs
use Prim.Native.String.{String}
use sane_in_the_membrane.Common.{ℕ, ◌+◌, Bool, true, false, List, [], ◌∷◌, Option, none, some}
use sane_in_the_membrane.Common.Exec.{Exec, ok, fault, ◌>>=◌}
use sane_in_the_membrane.Watcher.{
  ConnectivityState, channel_idle, connecting, ready, transient_failure, shutdown, WatcherEvent,
  discover, stopping_auto_discovery, channel_state_changed,
}
use sane_in_the_membrane.Mdns.Query.{QueryResult}
use sane_in_the_membrane.Mdns.AutoFind.{
  FinderSignal, sig_discovering, sig_mdns_discovered, sig_discover_failed, sig_query_failed,
}

pub data Light : Type 0 where
  green yellow red : Light

-- `stopped_auto_discovery` is not initialised: `none` is an indeterminate value, and reading it is
-- undefined. `searches` counts the calls of `CMDnsAutoFinder::discover`.
pub record Semaphore : Type 0 where
  pub status : Light
  pub text : String
  pub stopped_auto_discovery : Option Bool
  pub searches : ℕ

abbrev pub new_semaphore : Semaphore
new_semaphore = record { status = red; text = ""; stopped_auto_discovery = none; searches = 0 }

abbrev pub autodiscover_stopped_message : String
autodiscover_stopped_message =
    "Server auto discovery stopped, click the red icon to try discovering scanner server"

abbrev pub failed_to_discover_scanner_message : String
failed_to_discover_scanner_message = "Failed to discover scanner server"

abbrev pub failed_to_discover_query_message : String
failed_to_discover_query_message = "Failed to query scanner server"

abbrev pub unable_to_find_scanner_server_message : String
unable_to_find_scanner_server_message = "Unable to find scanner server"

abbrev pub connected_message : String
connected_message = "Connected"

abbrev pub connecting_message : String
connecting_message = "Connecting..."

abbrev pub show : Light → String → Semaphore → Semaphore
show status text s = record s { status = status; text = text }

abbrev pub light_of : ConnectivityState → Light
light_of channel_idle = green
light_of ready = green
light_of connecting = yellow
light_of transient_failure = red
light_of shutdown = red

unfoldable pub sl_channel_state_changed : ConnectivityState → Semaphore → Semaphore
sl_channel_state_changed state s = record s { status = light_of state }

unfoldable pub sl_stopping_auto_discovery : Semaphore → Semaphore
sl_stopping_auto_discovery s = record (show red autodiscover_stopped_message s) {
  stopped_auto_discovery = some true;
}

unfoldable pub sl_rediscover : Semaphore → Semaphore
sl_rediscover s = record s { stopped_auto_discovery = some false; searches = s.searches + 1 }

abbrev pub nothing_found : Option Bool → Semaphore → Exec Semaphore
nothing_found none s = fault
nothing_found (some true) s = ok (show red autodiscover_stopped_message s)
nothing_found (some false) s = ok (show red unable_to_find_scanner_server_message s)

unfoldable pub sl_mdns_discovered : List QueryResult → Semaphore → Exec Semaphore
sl_mdns_discovered [] s = nothing_found s.stopped_auto_discovery s
sl_mdns_discovered (r ∷ results) s = ok (show green connected_message s)

-- The slots of the finder's signals.
unfoldable pub on_finder : FinderSignal → Semaphore → Exec Semaphore
unfolding sl_mdns_discovered
on_finder sig_discovering s = ok (show yellow connecting_message s)
on_finder (sig_mdns_discovered results) s = sl_mdns_discovered results s
on_finder (sig_discover_failed error) s = ok (show red failed_to_discover_query_message s)
on_finder (sig_query_failed error) s = ok (show red failed_to_discover_scanner_message s)

-- The slots of the watcher's signals; its calls of the finder are no signals.
unfoldable pub on_watcher : WatcherEvent → Semaphore → Semaphore
unfolding sl_channel_state_changed sl_stopping_auto_discovery
on_watcher discover s = s
on_watcher stopping_auto_discovery s = sl_stopping_auto_discovery s
on_watcher (channel_state_changed state) s = sl_channel_state_changed state s

unfoldable pub on_finder_all : List FinderSignal → Semaphore → Exec Semaphore
unfolding on_finder
on_finder_all [] s = ok s
on_finder_all (g ∷ signals) s = on_finder g s >>= λ s'. on_finder_all signals s'

unfoldable pub on_watcher_all : List WatcherEvent → Semaphore → Semaphore
unfolding on_watcher
on_watcher_all [] s = s
on_watcher_all (e ∷ events) s = on_watcher_all events (on_watcher e s)
