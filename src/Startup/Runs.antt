-- ===== src/Startup/Runs.antt =====
-- Concrete runs of the server, and the theorems at them.
use sane_in_the_membrane.Common.{◌≡◌, refl, true, false, List, [], ◌∷◌, ◌++◌, arith}
use sane_in_the_membrane.Common.Exec.{ok}
use sane_in_the_membrane.Startup.{
  live, looping, ipc_serving, hangs_up, Server, quiet, connects, request, no_input, new_server,
  Turn, interrupt, signal_turn, grpc_turn, devices_turn, avahi_turn, stdin_turn, ipc_turn, turn,
  run, CanJoin, making, client_started,
}
use sane_in_the_membrane.Startup.Join.{run-CanJoin}
use sane_in_the_membrane.Startup.Lost.{stop_at_once, run-not-CanJoin}

-- The announcement is up, and a client of the control socket is being served.
abbrev up : Server
up = record new_server { service = live false; avahi = looping; ipc = ipc_serving }

up_reached :
    run
      (avahi_turn client_started
        ∷ ipc_turn quiet
        ∷ avahi_turn client_started
        ∷ avahi_turn client_started
        ∷ ipc_turn connects
        ∷ avahi_turn client_started
        ∷ [])
      new_server
    ≡ ok up
unfolding run turn
up_reached = refl

abbrev first_turns : List Turn
first_turns =
    signal_turn
    ∷ signal_turn
    ∷ avahi_turn client_started
    ∷ signal_turn
    ∷ ipc_turn request
    ∷ signal_turn
    ∷ grpc_turn
    ∷ signal_turn
    ∷ avahi_turn client_started
    ∷ signal_turn
    ∷ stdin_turn no_input
    ∷ signal_turn
    ∷ []

abbrev second_turns : List Turn
second_turns =
    ipc_turn request
    ∷ avahi_turn client_started
    ∷ grpc_turn
    ∷ devices_turn
    ∷ ipc_turn hangs_up
    ∷ stdin_turn no_input
    ∷ avahi_turn client_started
    ∷ ipc_turn hangs_up
    ∷ grpc_turn
    ∷ []

run-CanJoin_example :
    (s' : Server) × (run (interrupt ∷ (first_turns ++ second_turns)) up ≡ ok s') × CanJoin s'
run-CanJoin_example =
    run-CanJoin up first_turns second_turns
      (record {
        announced = refl;
        loops = refl;
        has_server = refl;
        not_stopped = refl;
        serves = refl;
        idle = refl;
        no_stop = refl;
      })
      (tt, (tt, (tt, (tt, (tt, (tt, (tt, (tt, (tt, (tt, (refl, (tt, tt))))))))))))
      (tt, (tt, (tt, (tt, (tt, (refl, (tt, (tt, (tt, tt))))))))) (omega arith)
      (record {
        avahi_turns = omega arith;
        grpc_turns = omega arith;
        stdin_turns = omega arith;
        ipc_turns = omega arith;
        devices_turns = omega arith;
      })

-- The first round of the loop, before the service is made.
abbrev restarting : Server
restarting = record new_server { avahi = making }

restarting_reached :
    run (avahi_turn client_started ∷ avahi_turn client_started ∷ []) new_server ≡ ok restarting
unfolding run turn
restarting_reached = refl

run-not-CanJoin_example :
    (s' : Server) × (run (stop_at_once ++ second_turns) restarting ≡ ok s')
    × (s'.avahi_stop ≡ true)
    × (¬ CanJoin s')
run-not-CanJoin_example =
    run-not-CanJoin restarting second_turns
      (record { cleared = refl; makes = refl; idle = refl; no_stop = refl })
      (tt, (tt, (tt, (tt, (tt, (refl, (tt, (tt, (tt, tt)))))))))
