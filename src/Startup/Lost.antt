-- ===== src/Startup/Lost.antt =====
-- A stop that comes while the announcement is being started again finds no service to call.
use sane_in_the_membrane.Common.{◌≡◌, true, false, List, [], ◌∷◌, ◌++◌, All, arith}
use sane_in_the_membrane.Common.Exec.{ok, Returns, Returns-bind, Returns-ok}
use sane_in_the_membrane.Startup.{
  returned, ServicePointer, no_service, live, AvahiWorker, looping, Server, Turn, interrupt,
  signal_turn, avahi_fails, avahi_turn, stdin_turn, turn, run, CanJoin, making, starting,
  client_refused, client_started,
}
use sane_in_the_membrane.Startup.Stopping.{Calm, calls_stop}
use sane_in_the_membrane.Startup.Draining.{run-append}

-- A calm turn at which the avahi client, if it is made, is made.
abbrev pub Quiet : Turn → Type 0
Quiet (avahi_turn client_refused) = ⊥
Quiet t = Calm t

abbrev DeafFits : ServicePointer → AvahiWorker → Type 0
DeafFits no_service making = Unit
DeafFits (live false) starting = Unit
DeafFits (live false) looping = Unit
DeafFits v a = ⊥

-- Nobody will call the service that is made.
record IsDeaf (s : Server) : Type 0 where
  deaf_fits : DeafFits s.service s.avahi
  flag : s.avahi_stop ≡ true
  handled : s.signal ≡ returned
  no_call : calls_stop s.stdin ≡ false

turn-IsDeaf : (t : Turn) (s : Server) → Quiet t → IsDeaf s → Returns IsDeaf (turn t s)
unfolding turn
turn-IsDeaf (avahi_turn client_refused) s c d = absurd c
turn-IsDeaf (avahi_turn client_started) s c d = ground arith
turn-IsDeaf (stdin_turn e) s c d = ground arith
turn-IsDeaf interrupt s c d = absurd c
turn-IsDeaf avahi_fails s c d = absurd c
turn-IsDeaf _ s c d = ground arith

run-IsDeaf : (ts : List Turn) (s : Server) → All Quiet ts → IsDeaf s → Returns IsDeaf (run ts s)
unfolding run
run-IsDeaf [] s c d = d
run-IsDeaf (t ∷ ts) s c d =
    Returns-bind IsDeaf (turn t s) (λ s'. run ts s') (turn-IsDeaf t s c.0 d)
      (λ s' d'. run-IsDeaf ts s' c.1 d')

-- The signal and the steps of its handler, with no turn of another thread between them.
abbrev pub stop_at_once : List Turn
stop_at_once =
    interrupt ∷ signal_turn ∷ signal_turn ∷ signal_turn ∷ signal_turn ∷ signal_turn ∷ signal_turn
    ∷ []

-- The loop has cleared the old service, or there was none, and has not made the new one.
pub record IsRestarting (s : Server) : Type 0 where
  pub cleared : s.service ≡ no_service
  pub makes : s.avahi ≡ making
  pub idle : s.signal ≡ returned
  pub no_stop : calls_stop s.stdin ≡ false

stop_at_once-IsDeaf : (s : Server) → IsRestarting s → Returns IsDeaf (run stop_at_once s)
unfolding run turn
stop_at_once-IsDeaf s r = ground arith

-- A stop is lost: if SIGINT and its handler come between the clearing of the avahi service and the
-- making of the next one, then whatever turns follow without a further signal or stop, without a
-- failure of the announcement and with an avahi client that can be made, the stop flag is set and
-- the server never ends.
pub run-not-CanJoin :
    (s : Server) (ts : List Turn)
    → IsRestarting s
    → All Quiet ts
    → (s' : Server) × (run (stop_at_once ++ ts) s ≡ ok s') × (s'.avahi_stop ≡ true) × (¬ CanJoin s')
run-not-CanJoin s ts r c =
    let (s', e, d) = Returns-ok IsDeaf (run (stop_at_once ++ ts) s) (
      rw (run-append stop_at_once ts s) (
        Returns-bind IsDeaf (run stop_at_once s) (λ s'. run ts s') (stop_at_once-IsDeaf s r)
          (λ s' d. run-IsDeaf ts s' c d))) in
    (s', e, d.flag, λ j. ground (arith, j.avahi_ended))
