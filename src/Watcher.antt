-- ===== src/Watcher.antt =====
-- The watcher of the connection to the server: `CChangeStateWatcher` of
-- gui-app/src/Service/ChannelStateChangeService.{hpp,cpp}. A round of its loop takes the state that
-- gRPC reports for the channel and says which calls and signals it makes.
pub mod Discovery
pub mod Thread
mod Runs
use sane_in_the_membrane.Common.{
  ℕ, ◌+◌, Bool, true, false, not, List, [], ◌∷◌, ◌++◌, ltb, ◌==◌, ◌&&◌, ◌||◌, if◌then◌else◌,
}

-- `grpc_connectivity_state`.
pub data ConnectivityState : Type 0 where
  channel_idle connecting ready transient_failure shutdown : ConnectivityState

abbrev pub state_code : ConnectivityState → ℕ
state_code channel_idle = 0
state_code connecting = 1
state_code ready = 2
state_code transient_failure = 3
state_code shutdown = 4

abbrev pub state_eq : ConnectivityState → ConnectivityState → Bool
state_eq a b = state_code a == state_code b

pub data WatcherEvent : Type 0 where
  discover stopping_auto_discovery : WatcherEvent
  channel_state_changed : ConnectivityState → WatcherEvent

pub record Watcher : Type 0 where
  pub state : ConnectivityState
  pub connection_failure_count : ℕ

abbrev pub auto_connect_max_tries : ℕ
auto_connect_max_tries = 5

abbrev pub new_watcher : Watcher
new_watcher = record { state = channel_idle; connection_failure_count = 0 }

-- The first half of a round: on a failure, one more try, up to the limit.
unfoldable pub try_discovery : ConnectivityState → Watcher → List WatcherEvent × Watcher
try_discovery state w =
    let n = w.connection_failure_count + 1 in
    if state_eq state transient_failure && ltb w.connection_failure_count auto_connect_max_tries
    then (
      discover ∷ (if n == auto_connect_max_tries then stopping_auto_discovery ∷ [] else []),
      record w { connection_failure_count = n },
    )
    else ([], w)

-- The second half: a state that is new is stored and reported.
unfoldable pub note_state : ConnectivityState → Watcher → List WatcherEvent × Watcher
note_state state w = if state_eq w.state state then ([], w) else (
  channel_state_changed state ∷ [],
  record {
    state = state;
    connection_failure_count =
        if state_eq state channel_idle || state_eq state ready
        then 0
        else w.connection_failure_count;
  },
)

unfoldable pub watch_round : ConnectivityState → Watcher → List WatcherEvent × Watcher
unfolding try_discovery note_state
watch_round state w =
    let (events, w₁) = try_discovery state w in
    let (events', w₂) = note_state state w₁ in (events ++ events', w₂)

-- The rounds until the watcher is stopped.
unfoldable pub watch : List ConnectivityState → Watcher → List WatcherEvent × Watcher
unfolding watch_round
watch [] w = ([], w)
watch (state ∷ states) w =
    let (events, w₁) = watch_round state w in
    let (events', w₂) = watch states w₁ in (events ++ events', w₂)
