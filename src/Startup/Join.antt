-- ===== src/Startup/Join.antt =====
-- Every thread ends, so `wait` returns.
use sane_in_the_membrane.Common.{ℕ, ◌-◌, ◌≤◌, ◌≡◌, Bool, List, ◌∷◌, ◌++◌, All, if◌then◌else◌, arith}
use sane_in_the_membrane.Common.Exec.{
  ok, Returns, Returns-bind, Returns-ok, Returns-map, Returns-and,
}
use sane_in_the_membrane.Startup.{Server, Turn, interrupt, turn, run, CanJoin}
use sane_in_the_membrane.Startup.Stopping.{
  Calm, left, IsStopping, Stopped, IsAnnounced, is_signal, turn-IsStopping, turn-Stopped,
  signal_drains, interrupt-IsStopping,
}
use sane_in_the_membrane.Startup.Draining.{
  count, run-append, run-drains, avahi_left, grpc_left, stdin_left, ipc_left, devices_left,
  is_avahi, is_grpc, is_stdin, is_ipc, is_devices, avahi_drains, grpc_drains, stdin_drains,
  ipc_drains, devices_drains,
}

-- The turns that the five workers need.
pub record HasTurns (ts : List Turn) : Type 0 where
  pub avahi_turns : 2 ≤ count is_avahi ts
  pub grpc_turns : 2 ≤ count is_grpc ts
  pub stdin_turns : 1 ≤ count is_stdin ts
  pub ipc_turns : 2 ≤ count is_ipc ts
  pub devices_turns : 1 ≤ count is_devices ts

-- One thread, from where the handler has returned.
module _ (m : Server → ℕ) (mine : Turn → Bool)
    (drains : (t : Turn) (s : Server)
      → Calm t
      → Stopped s
      → Returns (λ s'. m s' ≤ m s - (if mine t then 1 else 0)) (turn t s)) where
  run-Stopped :
      (ts : List Turn) (s : Server)
      → All Calm ts
      → Stopped s
      → Returns (λ s'. Stopped s' × (m s' ≤ m s - count mine ts)) (run ts s)
  run-Stopped = run-drains Stopped m mine (λ t s c h.
      Returns-and Stopped (λ s'. m s' ≤ m s - (if mine t then 1 else 0)) (turn t s)
        (turn-Stopped t s c h) (drains t s c h))

  run_ends :
      (n : ℕ) (bound : (s : Server) → m s ≤ n) (ts : List Turn) (s : Server)
      → All Calm ts
      → Stopped s
      → n ≤ count mine ts
      → Returns (λ s'. m s' ≡ 0) (run ts s)
  run_ends n bound ts s c h enough =
      Returns-map (λ s'. m s' ≡ 0) (run ts s) (run-Stopped ts s c h)
        (λ s' k. omega (arith, k.1, bound s))

-- Measures that are zero.
CanJoin-of_left :
    (s : Server)
    → Stopped s
    → avahi_left s.avahi ≡ 0
    → grpc_left s.grpc ≡ 0
    → stdin_left s.stdin ≡ 0
    → ipc_left s.ipc ≡ 0
    → devices_left s.devices ≡ 0
    → CanJoin s
CanJoin-of_left s h a g i p d = ground arith

workers_end :
    (ts : List Turn) (s : Server)
    → All Calm ts
    → HasTurns ts
    → Stopped s
    → Returns CanJoin (run ts s)
workers_end ts s c f h =
    Returns-map CanJoin (run ts s)
      (Returns-and _ _ (run ts s)
        (Returns-map Stopped (run ts s)
          (run-Stopped (λ s. avahi_left s.avahi) is_avahi avahi_drains ts s c h) (λ s' k. k.0))
        (Returns-and _ _ (run ts s)
          (run_ends (λ s. avahi_left s.avahi) is_avahi avahi_drains 2 (λ s. ground arith) ts s c h
            f.avahi_turns)
          (Returns-and _ _ (run ts s)
            (run_ends (λ s. grpc_left s.grpc) is_grpc grpc_drains 2 (λ s. ground arith) ts s c h
              f.grpc_turns)
            (Returns-and _ _ (run ts s)
              (run_ends (λ s. stdin_left s.stdin) is_stdin stdin_drains 1 (λ s. ground arith) ts s c
                h f.stdin_turns)
              (Returns-and _ _ (run ts s)
                (run_ends (λ s. ipc_left s.ipc) is_ipc ipc_drains 2 (λ s. ground arith) ts s c h
                  f.ipc_turns)
                (run_ends (λ s. devices_left s.devices) is_devices devices_drains 1
                  (λ s. ground arith) ts s c h f.devices_turns))))))
      (λ s' k. CanJoin-of_left s' k.0 k.1.0 k.1.1.0 k.1.1.1.0 k.1.1.1.1.0 k.1.1.1.1.1)

-- From the interrupt on.
stopping_run :
    (first second : List Turn) (s : Server)
    → All Calm first
    → All Calm second
    → 7 ≤ count is_signal first
    → HasTurns second
    → IsStopping s
    → Returns CanJoin (run (first ++ second) s)
stopping_run first second s c₁ c₂ enough f i = rw (run-append first second s) (
    Returns-bind CanJoin (run first s) (λ s'. run second s')
      (run-drains IsStopping (λ s. left s.signal) is_signal
        (λ t s c i.
          Returns-and IsStopping
            (λ s'. left s'.signal ≤ left s.signal - (if is_signal t then 1 else 0)) (turn t s)
            (turn-IsStopping t s c i) (signal_drains t s c i))
        first s c₁ i)
      (λ s' k. workers_end second s' c₂ f (k.0, ground (arith, k.1))))

-- A stop ends the server: from any state in which the announcement is up, SIGINT, then any calm
-- turns among which the handler has seven, then any calm turns among which the workers have theirs
-- (two for avahi, two for gRPC, one for the input, two at which no client of the control socket
-- stays, one for the devices), reach without a fault a state in which every thread has ended. A turn
-- is calm if it is no second stop and no failure of the announcement.
pub run-CanJoin :
    (s : Server) (first second : List Turn)
    → IsAnnounced s
    → All Calm first
    → All Calm second
    → 7 ≤ count is_signal first
    → HasTurns second
    → (s' : Server) × (run (interrupt ∷ (first ++ second)) s ≡ ok s') × CanJoin s'
unfolding run
run-CanJoin s first second a c₁ c₂ enough f =
    Returns-ok CanJoin (run (interrupt ∷ (first ++ second)) s) (
      Returns-bind CanJoin (turn interrupt s) (λ s'. run (first ++ second) s')
        (interrupt-IsStopping s a) (λ s' i. stopping_run first second s' c₁ c₂ enough f i))
