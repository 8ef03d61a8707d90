-- ===== src/Scan/Guards.antt =====
-- The order of the calls that the reactor of server/src/Reactors/ScanResponseReactor.cpp makes,
-- whatever the device answers and gRPC reports.
use mathlib.Core.Path.{subst}
use mathlib.Core.Option.{some-injective}
use sane_in_the_membrane.Common.{
  ℕ, zero, suc, ◌≡◌, refl, inl, inr, Bool, true, false, List, [], ◌∷◌, ◌++◌, some, leb, arith, All,
  All-append, length, Bool-cases, Option-cases,
}
use sane_in_the_membrane.Common.Exec.{Exec, ok, ◌>>=◌, Exec-cases, Ensures, Ensures-bind}
use sane_in_the_membrane.Sane.Status.{SaneStatus, good, eof, is_ok}
use sane_in_the_membrane.Sane.Backend.{Backend}
use sane_in_the_membrane.Sane.Device.{
  SaneDevice, open_device, start_device, refresh_parameters, read_into,
}
use sane_in_the_membrane.Scan.{
  Reactor, GrpcCall, GrpcStatus, grpc_ok, aborted, cancelled, write_failed, started_scan,
  packet_size, start_write, finish_call, Scan, take_in, stop_on, write_response, finish,
  reset_response, read_loop, next_packet, on_write_done, on_cancel, start_scan, new_reactor,
  write_sane_parameters,
}

abbrev pub IsWrite : GrpcCall → Type 0
IsWrite (start_write r) = Unit {0}
IsWrite (finish_call s) = ⊥

-- Before the call is finished there are writes only; afterwards there is one `Finish`, the last.
abbrev pub IsOrderly : Bool → List GrpcCall → Type 0
IsOrderly false calls = All IsWrite calls
IsOrderly true calls =
    (writes : List GrpcCall) × (s : GrpcStatus) × All IsWrite writes
    × (calls ≡ writes ++ (finish_call s ∷ []))

abbrev pub IsOrderlyReactor : Reactor → Type 0
IsOrderlyReactor r = IsOrderly r.finished r.calls

finish-IsOrderly :
    (s : GrpcStatus) (r : Reactor) → IsOrderlyReactor r → IsOrderlyReactor (finish s r)
unfolding finish
finish-IsOrderly s r o = elim (Bool-cases r.finished) [
  | inl e ↦ rw e (rw e at o)
  | inr e ↦ rw e (r.calls, s, (rw e at o), refl)
]

-- A reactor that is not finished, and has made writes only.
abbrev IsLive : Reactor → Type 0
IsLive r = (r.finished ≡ false) × All IsWrite r.calls

live-IsOrderly : (r : Reactor) → IsLive r → IsOrderlyReactor r
live-IsOrderly r l = rw l.0 l.1

orderly-IsLive : (r : Reactor) → r.finished ≡ false → IsOrderlyReactor r → IsLive r
orderly-IsLive r e o = (e, rw e at o)

written-IsLive : (r : Reactor) → IsLive r → IsLive (write_response r)
unfolding write_response
written-IsLive r l = (l.0, All-append IsWrite r.calls _ l.1 (tt, tt))

stop_on-IsOrderly :
    (status : SaneStatus) (r r' : Reactor)
    → IsLive r
    → stop_on status r ≡ some r'
    → IsOrderlyReactor r'
stop_on-IsOrderly good r r' l e = cc
stop_on-IsOrderly eof r r' l e = subst IsOrderlyReactor (some-injective _ _ e) (
    finish-IsOrderly grpc_ok (write_response r)
      (live-IsOrderly (write_response r) (written-IsLive r l)))
stop_on-IsOrderly status r r' l e =
    subst IsOrderlyReactor (some-injective _ _ e)
      (finish-IsOrderly (aborted status) r (live-IsOrderly r l))

take_in-IsLive :
    (status : SaneStatus) (buffer : List ℕ) (r : Reactor)
    → IsLive r
    → IsLive (take_in status buffer r)
take_in-IsLive status buffer r l = ground arith

module _ (b : Backend) where
  open b use {World}

  abbrev pub IsOrderlyScan : Scan b → Type 0
  IsOrderlyScan s = IsOrderlyReactor s.reactor

  read_loop-IsOrderly :
      (fuel : ℕ) (s : Scan b) → IsLive s.reactor → Ensures IsOrderlyScan (read_loop b fuel s)
  unfolding read_loop
  read_loop-IsOrderly zero s l = tt
  read_loop-IsOrderly (suc fuel) s l =
      elim (Exec-cases (read_into b s.device s.reactor.buffer s.world)) [
        | inr (inl e) ↦ rw e tt
        | inr (inr e) ↦ rw e tt
        | inl ((status, buffer, w), e) ↦
            let r = take_in status buffer s.reactor in
            let l' = take_in-IsLive status buffer s.reactor l in
            rw e (elim (Bool-cases (leb packet_size (length r.byte_data))) [
              | inl big ↦ rw big (live-IsOrderly (write_response r) (written-IsLive r l'))
              | inr small ↦ rw small (elim (Option-cases (stop_on status r)) [
                | inl go ↦ rw go (read_loop-IsOrderly fuel (record s { reactor = r; world = w }) l')
                | inr (r', stop) ↦ rw stop (stop_on-IsOrderly status r r' l' stop)
              ])
            ])
      ]

  next_packet-IsOrderly :
      (fuel : ℕ) (s : Scan b) → IsLive s.reactor → Ensures IsOrderlyScan (next_packet b fuel s)
  unfolding next_packet reset_response
  next_packet-IsOrderly fuel s l = read_loop-IsOrderly fuel _ l

  on_write_done-IsOrderly :
      (fuel : ℕ) (written : Bool) (s : Scan b)
      → IsOrderlyScan s
      → Ensures IsOrderlyScan (on_write_done b fuel written s)
  unfolding on_write_done
  on_write_done-IsOrderly fuel true s o = elim (Bool-cases s.reactor.finished) [
    | inl e ↦ rw e (rw e at o)
    | inr e ↦ simp e (next_packet-IsOrderly fuel s (orderly-IsLive s.reactor e o))
  ]
  on_write_done-IsOrderly fuel false s o = elim (Bool-cases s.reactor.finished) [
    | inl e ↦ rw e (rw e at o)
    | inr e ↦ simp e (finish-IsOrderly write_failed s.reactor o)
  ]

  started_scan-IsOrderly :
      (s : Scan b) (x : SaneStatus × SaneDevice × World)
      → IsLive s.reactor
      → IsOrderlyScan (started_scan b s x)
  unfolding started_scan write_sane_parameters
  started_scan-IsOrderly s (status, d, w) l = elim (Bool-cases (is_ok status)) [
    | inr bad ↦ rw bad (finish-IsOrderly (cancelled status) s.reactor (live-IsOrderly s.reactor l))
    | inl opens ↦ rw opens (elim (Bool-cases (is_ok (refresh_parameters b d w).0)) [
      | inr bad ↦ rw bad (
          finish-IsOrderly (cancelled (refresh_parameters b d w).0) s.reactor
            (live-IsOrderly s.reactor l))
      | inl told ↦ rw (told, l.0) (All-append IsWrite s.reactor.calls _ l.1 (tt, tt))
    ])
  ]

  start_scan-IsOrderly :
      (d : SaneDevice) (w : World)
      → Ensures IsOrderlyScan
          (start_scan b (record { reactor = new_reactor; device = d; world = w }))
  unfolding start_scan reset_response
  start_scan-IsOrderly d w = elim (Exec-cases (open_device b d w)) [
    | inr (inl e) ↦ rw e tt
    | inr (inr e) ↦ rw e tt
    | inl ((status, d', w'), e) ↦ rw e (elim (Bool-cases (is_ok status)) [
      | inl opens ↦ rw opens (
          started_scan-IsOrderly
            (record { reactor = reset_response d.device_name new_reactor; device = d'; world = w' })
            (start_device b d' w') (refl, tt))
      | inr bad ↦
          rw bad (finish-IsOrderly (cancelled status) (reset_response d.device_name new_reactor) tt)
    ])
  ]

  -- gRPC reports a write, done or failed, or that the client cancelled.
  pub data ScanEvent : Type 0 where
    written : Bool → ScanEvent
    client_cancelled : ScanEvent

  unfoldable pub scan_run : ℕ → Scan b → List ScanEvent → Exec (Scan b)
  scan_run fuel s [] = ok s
  scan_run fuel s (written done ∷ events) =
      on_write_done b fuel done s >>= λ s'. scan_run fuel s' events
  scan_run fuel s (client_cancelled ∷ events) = scan_run fuel (on_cancel b s) events

  scan_run-IsOrderly :
      (fuel : ℕ) (s : Scan b) (events : List ScanEvent)
      → IsOrderlyScan s
      → Ensures IsOrderlyScan (scan_run fuel s events)
  unfolding scan_run on_cancel
  scan_run-IsOrderly fuel s [] o = o
  scan_run-IsOrderly fuel s (written done ∷ events) o =
      Ensures-bind IsOrderlyScan (on_write_done b fuel done s) (λ s'. scan_run fuel s' events)
        (on_write_done-IsOrderly fuel done s o) (λ s' o'. scan_run-IsOrderly fuel s' events o')
  scan_run-IsOrderly fuel s (client_cancelled ∷ events) o =
      scan_run-IsOrderly fuel (on_cancel b s) events o

  -- Whatever the device answers and gRPC reports, the reactor makes writes only until it finishes the
  -- call, finishes it at most once, and makes no call afterwards.
  pub start_scan-scan_run-IsOrderly :
      (fuel : ℕ) (d : SaneDevice) (w : World) (events : List ScanEvent)
      → Ensures IsOrderlyScan (
          start_scan b (record { reactor = new_reactor; device = d; world = w }) >>= λ s.
          scan_run fuel s events)
  start_scan-scan_run-IsOrderly fuel d w events =
      Ensures-bind IsOrderlyScan (start_scan b _) (λ s. scan_run fuel s events)
        (start_scan-IsOrderly d w) (λ s o. scan_run-IsOrderly fuel s events o)
