-- ===== src/Startup.antt =====
-- The life of the server process: `CStartupOrchestrator` of server/src/StartupOrchestrator.cpp, the
-- loop of `CAutoRestartableAvahiService` (server/src/mDns/AvahiServiceRegistration.hpp) and that of
-- `CIPC::start_blocking` (server/src/IPC/IPC.cpp). A run is a sequence of turns of the threads; a
-- turn is one access to what the threads share, or one call that waits. The libraries and the
-- clients are in the turns: what they answer is part of a turn.
pub mod Stopping
pub mod Draining
pub mod Join
pub mod Lost
mod Runs
use Prim.Native.String.{String}
use text.Mathlib.Text.{◌==◌ as str_eq}
use sane_in_the_membrane.Common.{◌≡◌, Bool, true, false, List, [], ◌∷◌, if◌then◌else◌, ◌||◌}
use sane_in_the_membrane.Common.Exec.{Exec, ok, fault, ◌>>=◌}

-- Where a caller stands in `init_shutdown`, named after the access that comes next.
pub data StopPoint : Type 0 where
  look_grpc call_grpc flag_avahi look_service call_service clear_stdin flag_ipc returned : StopPoint

-- `m_avahi_service`, with the state of its poll loop. The pointer dangles between `delete` and the
-- assignment of the null pointer.
pub data ServicePointer : Type 0 where
  no_service freed : ServicePointer
  live : Bool → ServicePointer

pub data AvahiWorker : Type 0 where
  testing resetting deleting clearing making starting looping avahi_done : AvahiWorker

pub data GrpcWorker : Type 0 where
  grpc_waiting grpc_resetting grpc_done : GrpcWorker

pub data StdinWorker : Type 0 where
  stdin_reading stdin_done : StdinWorker
  stdin_calling : StopPoint → StdinWorker

pub data IpcWorker : Type 0 where
  ipc_opening ipc_testing ipc_serving ipc_done : IpcWorker

pub data DevicesWorker : Type 0 where
  refreshing devices_done : DevicesWorker

-- `avahi_stop` and `ipc_stop` are the two flags `m_shutdown`, `grpc_stop` says that the gRPC server
-- has been told to shut down, and `signal` is the handler of SIGINT.
pub record Server : Type 0 where
  pub has_grpc : Bool
  pub grpc_stop : Bool
  pub avahi_stop : Bool
  pub read_stdin : Bool
  pub ipc_stop : Bool
  pub service : ServicePointer
  pub signal : StopPoint
  pub avahi : AvahiWorker
  pub grpc : GrpcWorker
  pub stdin : StdinWorker
  pub ipc : IpcWorker
  pub devices : DevicesWorker

-- The constructor: the gRPC server runs, and every thread stands at its beginning.
abbrev pub new_server : Server
new_server = record {
  has_grpc = true;
  grpc_stop = false;
  avahi_stop = false;
  read_stdin = true;
  ipc_stop = false;
  service = no_service;
  signal = returned;
  avahi = testing;
  grpc = grpc_waiting;
  stdin = stdin_reading;
  ipc = ipc_opening;
  devices = refreshing;
}

pub data StdinEvent : Type 0 where
  no_input end_of_input : StdinEvent
  input_line : String → StdinEvent

pub data IpcEvent : Type 0 where
  quiet open_fails connects accept_fails request hangs_up : IpcEvent

pub data ClientNew : Type 0 where
  client_started client_refused : ClientNew

pub data Turn : Type 0 where
  interrupt signal_turn avahi_fails grpc_turn devices_turn : Turn
  avahi_turn : ClientNew → Turn
  stdin_turn : StdinEvent → Turn
  ipc_turn : IpcEvent → Turn

-- `CAvahiService::shutdown` through `m_avahi_service`.
abbrev pub quit_service : ServicePointer → Server → Exec Server
quit_service no_service s = fault
quit_service freed s = fault
quit_service (live quit) s = ok (record s { service = live true })

abbrev pub is_null : ServicePointer → Bool
is_null no_service = true
is_null freed = false
is_null (live quit) = false

-- What one step of `init_shutdown` does, and where it goes.
abbrev pub next_point : StopPoint → Server → StopPoint
next_point look_grpc s = if s.has_grpc then call_grpc else flag_avahi
next_point call_grpc s = flag_avahi
next_point flag_avahi s = look_service
next_point look_service s = if is_null s.service then clear_stdin else call_service
next_point call_service s = clear_stdin
next_point clear_stdin s = flag_ipc
next_point flag_ipc s = returned
next_point returned s = returned

abbrev pub stop_step : StopPoint → Server → Exec Server
stop_step look_grpc s = ok s
stop_step call_grpc s = if s.has_grpc then ok (record s { grpc_stop = true }) else fault
stop_step flag_avahi s = ok (record s { avahi_stop = true })
stop_step look_service s = ok s
stop_step call_service s = quit_service s.service s
stop_step clear_stdin s = ok (record s { read_stdin = false })
stop_step flag_ipc s = ok (record s { ipc_stop = true })
stop_step returned s = ok s

-- `CAutoRestartableAvahiService::start` and `reset`. The poll loop returns once it was told to.
abbrev pub loop_ends : ServicePointer → AvahiWorker
loop_ends (live true) = testing
loop_ends (live false) = looping
loop_ends no_service = looping
loop_ends freed = looping

abbrev pub after_new : ClientNew → AvahiWorker
after_new client_started = looping
after_new client_refused = testing

abbrev pub reset_service : ServicePointer → Server → Server
reset_service no_service s = record s { avahi = making }
reset_service freed s = record s { avahi = deleting }
reset_service (live quit) s = record s { avahi = deleting; service = live true }

abbrev pub avahi_step : AvahiWorker → ClientNew → Server → Server
avahi_step testing c s = record s { avahi = if s.avahi_stop then avahi_done else resetting }
avahi_step resetting c s = reset_service s.service s
avahi_step deleting c s = record s { avahi = clearing; service = freed }
avahi_step clearing c s = record s { avahi = making; service = no_service }
avahi_step making c s = record s { avahi = starting; service = live false }
avahi_step starting c s = record s { avahi = after_new c }
avahi_step looping c s = record s { avahi = loop_ends s.service }
avahi_step avahi_done c s = s

-- The callbacks of a failed client or group tell the loop that runs them to quit.
abbrev pub avahi_failure : AvahiWorker → Server → Server
avahi_failure looping s = record s { service = live true }
avahi_failure other s = s

abbrev pub grpc_step : GrpcWorker → Server → Server
grpc_step grpc_waiting s = record s { grpc = if s.grpc_stop then grpc_resetting else grpc_waiting }
grpc_step grpc_resetting s = record s { grpc = grpc_done; has_grpc = false }
grpc_step grpc_done s = s

-- One round of the loop of `SStdinWorker`.
abbrev pub read_line : StdinEvent → StdinWorker
read_line no_input = stdin_reading
read_line end_of_input = stdin_done
read_line (input_line input) =
    if str_eq input "stop" || str_eq input "s" then stdin_calling look_grpc else stdin_reading

abbrev pub stdin_step : StdinWorker → StdinEvent → Server → Exec Server
stdin_step stdin_reading e s =
    ok (record s { stdin = if s.read_stdin then read_line e else stdin_done })
stdin_step (stdin_calling returned) e s = ok (record s { stdin = stdin_done })
stdin_step (stdin_calling p) e s = stop_step p (record s { stdin = stdin_calling (next_point p s) })
stdin_step stdin_done e s = ok s

-- `start_blocking`: the socket, the loop that polls, and the inner loop over one connection, which
-- waits for its client.
abbrev pub ipc_next : IpcWorker → IpcEvent → Bool → IpcWorker
ipc_next ipc_opening open_fails stop = ipc_done
ipc_next ipc_opening e stop = ipc_testing
ipc_next ipc_testing connects stop = if stop then ipc_done else ipc_serving
ipc_next ipc_testing e stop = if stop then ipc_done else ipc_testing
ipc_next ipc_serving hangs_up stop = ipc_testing
ipc_next ipc_serving e stop = ipc_serving
ipc_next ipc_done e stop = ipc_done

-- The handler of a signal runs when no call of it is under way.
abbrev pub on_interrupt : StopPoint → StopPoint
on_interrupt returned = look_grpc
on_interrupt p = p

unfoldable pub turn : Turn → Server → Exec Server
turn interrupt s = ok (record s { signal = on_interrupt s.signal })
turn signal_turn s = stop_step s.signal (record s { signal = next_point s.signal s })
turn avahi_fails s = ok (avahi_failure s.avahi s)
turn (avahi_turn c) s = ok (avahi_step s.avahi c s)
turn grpc_turn s = ok (grpc_step s.grpc s)
turn devices_turn s = ok (record s { devices = devices_done })
turn (stdin_turn e) s = stdin_step s.stdin e s
turn (ipc_turn e) s = ok (record s { ipc = ipc_next s.ipc e s.ipc_stop })

unfoldable pub run : List Turn → Server → Exec Server
run [] s = ok s
run (t ∷ ts) s = turn t s >>= λ s'. run ts s'

-- `wait` returns when every thread has ended.
pub record CanJoin (s : Server) : Type 0 where
  pub avahi_ended : s.avahi ≡ avahi_done
  pub grpc_ended : s.grpc ≡ grpc_done
  pub stdin_ended : s.stdin ≡ stdin_done
  pub ipc_ended : s.ipc ≡ ipc_done
  pub devices_ended : s.devices ≡ devices_done
