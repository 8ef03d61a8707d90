-- ===== src/Startup/Stopping.antt =====
-- What SIGINT does to a server whose announcement is up: `init_shutdown` and the five workers.
use sane_in_the_membrane.Common.{ℕ, ◌-◌, ◌≤◌, ◌<◌, ◌≡◌, Bool, true, false, if◌then◌else◌, arith}
use sane_in_the_membrane.Common.Exec.{Returns, Returns-map, Returns-and}
use sane_in_the_membrane.Startup.{
  StopPoint, look_grpc, call_grpc, flag_avahi, look_service, call_service, clear_stdin, flag_ipc,
  returned, ServicePointer, no_service, freed, live, AvahiWorker, testing, looping, avahi_done,
  GrpcWorker, grpc_waiting, grpc_resetting, grpc_done, StdinWorker, stdin_reading, stdin_done,
  stdin_calling, Server, read_line, Turn, interrupt, signal_turn, avahi_fails, grpc_turn,
  devices_turn, avahi_turn, stdin_turn, ipc_turn, turn,
}

abbrev pub calls_stop : StdinWorker → Bool
calls_stop stdin_reading = false
calls_stop stdin_done = false
calls_stop (stdin_calling p) = true

-- No second stop, and no failure of the announcement, comes with this turn.
abbrev pub Calm : Turn → Type 0
Calm interrupt = ⊥
Calm avahi_fails = ⊥
Calm (stdin_turn e) = calls_stop (read_line e) ≡ false
Calm signal_turn = Unit
Calm grpc_turn = Unit
Calm devices_turn = Unit
Calm (avahi_turn c) = Unit
Calm (ipc_turn e) = Unit

-- The steps that the handler has left.
abbrev pub left : StopPoint → ℕ
left look_grpc = 7
left call_grpc = 6
left flag_avahi = 5
left look_service = 4
left call_service = 3
left clear_stdin = 2
left flag_ipc = 1
left returned = 0

abbrev pub GrpcFits : Bool → StopPoint → GrpcWorker → Bool → Type 0
GrpcFits true p g has = left p ≤ 5
GrpcFits false p grpc_waiting has = (6 ≤ left p) × (has ≡ true)
GrpcFits false p grpc_resetting has = ⊥
GrpcFits false p grpc_done has = ⊥

-- The service is announced until the handler calls it; then its loop ends for good.
abbrev pub AvahiFits : ServicePointer → AvahiWorker → StopPoint → Bool → Type 0
AvahiFits no_service a p stop = ⊥
AvahiFits freed a p stop = ⊥
AvahiFits (live false) looping p stop = 3 ≤ left p
AvahiFits (live true) looping p stop = stop ≡ true
AvahiFits (live true) testing p stop = stop ≡ true
AvahiFits (live true) avahi_done p stop = stop ≡ true
AvahiFits (live q) other p stop = ⊥

pub record IsStopping (s : Server) : Type 0 where
  pub grpc_fits : GrpcFits s.grpc_stop s.signal s.grpc s.has_grpc
  pub avahi_fits : AvahiFits s.service s.avahi s.signal s.avahi_stop
  pub avahi_flag : left s.signal < 5 → s.avahi_stop ≡ true
  pub stdin_flag : left s.signal < 2 → s.read_stdin ≡ false
  pub ipc_flag : left s.signal < 1 → s.ipc_stop ≡ true
  pub stdin_fits : calls_stop s.stdin ≡ false

pub turn-IsStopping :
    (t : Turn) (s : Server) → Calm t → IsStopping s → Returns IsStopping (turn t s)
unfolding turn
turn-IsStopping interrupt s c i = absurd c
turn-IsStopping avahi_fails s c i = absurd c
turn-IsStopping signal_turn s c i = ground arith
turn-IsStopping (avahi_turn n) s c i = ground arith
turn-IsStopping grpc_turn s c i = ground arith
turn-IsStopping devices_turn s c i = ground arith
turn-IsStopping (stdin_turn e) s c i = ground arith
turn-IsStopping (ipc_turn e) s c i = ground arith

abbrev pub is_signal : Turn → Bool
is_signal signal_turn = true
is_signal t = false

pub signal_drains :
    (t : Turn) (s : Server)
    → Calm t
    → IsStopping s
    → Returns (λ s'. left s'.signal ≤ left s.signal - (if is_signal t then 1 else 0)) (turn t s)
unfolding turn
signal_drains signal_turn s c i = ground arith
signal_drains interrupt s c i = absurd c
signal_drains avahi_fails s c i = absurd c
signal_drains _ s c i = ground arith

-- What holds once the handler has returned.
abbrev pub Stopped : Server → Type 0
Stopped s = IsStopping s × (left s.signal ≡ 0)

pub turn-Stopped : (t : Turn) (s : Server) → Calm t → Stopped s → Returns Stopped (turn t s)
turn-Stopped t s c h =
    Returns-map Stopped (turn t s)
      (Returns-and IsStopping
        (λ s'. left s'.signal ≤ left s.signal - (if is_signal t then 1 else 0)) (turn t s)
        (turn-IsStopping t s c h.0) (signal_drains t s c h.0))
      (λ s' k. (k.0, omega (arith, k.1, h.1)))

-- The server is announced and serves, and no stop is under way.
pub record IsAnnounced (s : Server) : Type 0 where
  pub announced : s.service ≡ live false
  pub loops : s.avahi ≡ looping
  pub has_server : s.has_grpc ≡ true
  pub not_stopped : s.grpc_stop ≡ false
  pub serves : s.grpc ≡ grpc_waiting
  pub idle : s.signal ≡ returned
  pub no_stop : calls_stop s.stdin ≡ false

pub interrupt-IsStopping : (s : Server) → IsAnnounced s → Returns IsStopping (turn interrupt s)
unfolding turn
interrupt-IsStopping s a = ground arith
