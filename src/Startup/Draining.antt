-- ===== src/Startup/Draining.antt =====
-- How many turns each thread needs: measures that turns make smaller.
use sane_in_the_membrane.Common.{
  ℕ, ◌+◌, ◌-◌, ◌≤◌, ◌≡◌, refl, Bool, true, false, List, [], ◌∷◌, ◌++◌, All, if◌then◌else◌, arith,
}
use sane_in_the_membrane.Common.Exec.{ok, fault, stuck, ◌>>=◌, Returns, Returns-bind, Returns-map}
use sane_in_the_membrane.Startup.{
  AvahiWorker, testing, looping, GrpcWorker, grpc_waiting, grpc_resetting, grpc_done, StdinWorker,
  stdin_reading, stdin_done, stdin_calling, IpcWorker, ipc_opening, ipc_testing, ipc_serving,
  ipc_done, hangs_up, DevicesWorker, refreshing, devices_done, Server, Turn, interrupt, avahi_fails,
  grpc_turn, devices_turn, avahi_turn, stdin_turn, ipc_turn, turn, run,
}
use sane_in_the_membrane.Startup.Stopping.{Calm, Stopped}

abbrev pub count : (Turn → Bool) → List Turn → ℕ
count p [] = 0
count p (t ∷ ts) = (if p t then 1 else 0) + count p ts

pub run-append :
    (xs ys : List Turn) (s : Server) → run (xs ++ ys) s ≡ (run xs s >>= λ s'. run ys s')
unfolding run
run-append [] ys s = refl
run-append (t ∷ xs) ys s =
    elim (turn t s)
      as (λ m. (m >>= λ s'. run (xs ++ ys) s') ≡ ((m >>= λ s'. run xs s') >>= λ s'. run ys s')) [
        | ok s' ↦ run-append xs ys s'
        | fault ↦ refl
        | stuck ↦ refl
      ]

-- A measure that no turn makes larger, and that the turns of one kind make smaller.
module _ (P : Server → Type 0) (m : Server → ℕ) (mine : Turn → Bool)
    (keeps : (t : Turn) (s : Server)
      → Calm t
      → P s
      → Returns (λ s'. P s' × (m s' ≤ m s - (if mine t then 1 else 0))) (turn t s)) where
  pub run-drains :
      (ts : List Turn) (s : Server)
      → All Calm ts
      → P s
      → Returns (λ s'. P s' × (m s' ≤ m s - count mine ts)) (run ts s)
  unfolding run
  run-drains [] s c h = (h, omega arith)
  run-drains (t ∷ ts) s c h =
      Returns-bind (λ s'. P s' × (m s' ≤ m s - count mine (t ∷ ts))) (turn t s) (λ s'. run ts s')
        (keeps t s c.0 h)
        (λ s₁ k.
          Returns-map (λ s'. P s' × (m s' ≤ m s - count mine (t ∷ ts))) (run ts s₁)
            (run-drains ts s₁ c.1 k.0) (λ s₂ l. (l.0, omega (arith, k.1, l.1))))

abbrev pub avahi_left : AvahiWorker → ℕ
avahi_left looping = 2
avahi_left testing = 1
avahi_left other = 0

abbrev pub is_avahi : Turn → Bool
is_avahi (avahi_turn c) = true
is_avahi t = false

pub avahi_drains :
    (t : Turn) (s : Server)
    → Calm t
    → Stopped s
    → Returns
        (λ s'. avahi_left s'.avahi ≤ avahi_left s.avahi - (if is_avahi t then 1 else 0))
        (turn t s)
unfolding turn
avahi_drains (avahi_turn n) s c h = ground arith
avahi_drains interrupt s c i = absurd c
avahi_drains avahi_fails s c i = absurd c
avahi_drains _ s c h = ground arith

abbrev pub grpc_left : GrpcWorker → ℕ
grpc_left grpc_waiting = 2
grpc_left grpc_resetting = 1
grpc_left grpc_done = 0

abbrev pub is_grpc : Turn → Bool
is_grpc grpc_turn = true
is_grpc t = false

pub grpc_drains :
    (t : Turn) (s : Server)
    → Calm t
    → Stopped s
    → Returns (λ s'. grpc_left s'.grpc ≤ grpc_left s.grpc - (if is_grpc t then 1 else 0)) (turn t s)
unfolding turn
grpc_drains grpc_turn s c h = ground arith
grpc_drains interrupt s c i = absurd c
grpc_drains avahi_fails s c i = absurd c
grpc_drains _ s c h = ground arith

abbrev pub stdin_left : StdinWorker → ℕ
stdin_left stdin_reading = 1
stdin_left (stdin_calling p) = 1
stdin_left stdin_done = 0

abbrev pub is_stdin : Turn → Bool
is_stdin (stdin_turn e) = true
is_stdin t = false

pub stdin_drains :
    (t : Turn) (s : Server)
    → Calm t
    → Stopped s
    → Returns
        (λ s'. stdin_left s'.stdin ≤ stdin_left s.stdin - (if is_stdin t then 1 else 0))
        (turn t s)
unfolding turn
stdin_drains (stdin_turn e) s c h = ground arith
stdin_drains interrupt s c i = absurd c
stdin_drains avahi_fails s c i = absurd c
stdin_drains _ s c h = ground arith

abbrev pub ipc_left : IpcWorker → ℕ
ipc_left ipc_opening = 2
ipc_left ipc_serving = 2
ipc_left ipc_testing = 1
ipc_left ipc_done = 0

-- A turn of the IPC worker at which no client keeps it.
abbrev pub is_ipc : Turn → Bool
is_ipc (ipc_turn hangs_up) = true
is_ipc t = false

pub ipc_drains :
    (t : Turn) (s : Server)
    → Calm t
    → Stopped s
    → Returns (λ s'. ipc_left s'.ipc ≤ ipc_left s.ipc - (if is_ipc t then 1 else 0)) (turn t s)
unfolding turn
ipc_drains (ipc_turn e) s c h = ground arith
ipc_drains interrupt s c i = absurd c
ipc_drains avahi_fails s c i = absurd c
ipc_drains _ s c h = ground arith

abbrev pub devices_left : DevicesWorker → ℕ
devices_left refreshing = 1
devices_left devices_done = 0

abbrev pub is_devices : Turn → Bool
is_devices devices_turn = true
is_devices t = false

pub devices_drains :
    (t : Turn) (s : Server)
    → Calm t
    → Stopped s
    → Returns
        (λ s'. devices_left s'.devices ≤ devices_left s.devices - (if is_devices t then 1 else 0))
        (turn t s)
unfolding turn
devices_drains devices_turn s c h = ground arith
devices_drains interrupt s c i = absurd c
devices_drains avahi_fails s c i = absurd c
devices_drains _ s c h = ground arith
