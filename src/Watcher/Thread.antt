-- ===== src/Watcher/Thread.antt =====
-- The thread of the watcher: `start`, `stop`, the loop of `start_impl` and the destructor of
-- `CChangeStateWatcher` (gui-app/src/Service/ChannelStateChangeService.cpp). A turn is one way round
-- the loop: its test, the wait for the interval or for a stop, and a round if there was no stop.
use sane_in_the_membrane.Common.{
  Bool, true, false, List, [], ◌∷◌, ◌++◌, Option, none, some, if◌then◌else◌,
}
use sane_in_the_membrane.Common.Exec.{Exec, ok, fault, stuck}
use sane_in_the_membrane.Watcher.{
  ConnectivityState, WatcherEvent, Watcher, new_watcher, watch_round,
}

-- `std::thread` of a loop that goes on, and of one that has returned; both can be joined.
pub data Thread : Type 0 where
  looping returned : Thread

pub record WatcherService : Type 0 where
  pub started : Bool
  pub thread : Option Thread
  pub watcher : Watcher

abbrev pub new_service : WatcherService
new_service = record { started = false; thread = none; watcher = new_watcher }

-- The assignment to `m_thread` destroys the thread before, which terminates the program if nobody
-- joined it.
abbrev pub spawn : Option Thread → WatcherService → Exec WatcherService
spawn none s = ok (record s { started = true; thread = some looping })
spawn (some t) s = fault

unfoldable pub start : WatcherService → Exec WatcherService
start s = if s.started then ok s else spawn s.thread s

unfoldable pub stop : WatcherService → WatcherService
stop s = record s { started = false }

abbrev pub go_round :
    Option Thread → ConnectivityState → WatcherService → List WatcherEvent × WatcherService
go_round none state s = ([], s)
go_round (some returned) state s = ([], s)
go_round (some looping) state s =
    let (events, w) = watch_round state s.watcher in
    if s.started
    then (events, record s { watcher = w })
    else ([], record s { thread = some returned })

unfoldable pub watcher_turn :
    ConnectivityState → WatcherService → List WatcherEvent × WatcherService
watcher_turn state s = go_round s.thread state s

unfoldable pub watcher_turns :
    List ConnectivityState → WatcherService → List WatcherEvent × WatcherService
unfolding watcher_turn
watcher_turns [] s = ([], s)
watcher_turns (state ∷ states) s =
    let (events, s₁) = watcher_turn state s in
    let (events', s₂) = watcher_turns states s₁ in (events ++ events', s₂)

-- Whether the destructor gets past its join.
abbrev pub past_join : Option Thread → Bool
past_join none = true
past_join (some returned) = true
past_join (some looping) = false

unfoldable pub can_destroy : WatcherService → Bool
can_destroy s = past_join s.thread

abbrev running : Watcher → WatcherService
running w = record { started = true; thread = some looping; watcher = w }

abbrev ended : Watcher → WatcherService
ended w = record { started = false; thread = some returned; watcher = w }

started_or_new : Exec WatcherService → WatcherService
started_or_new (ok s) = s
started_or_new fault = new_service
started_or_new stuck = new_service
