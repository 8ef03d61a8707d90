-- ===== src/Scan/Complete.antt =====
-- A scan from the construction of the reactor of server/src/Reactors/ScanResponseReactor.cpp to the
-- end of its call.
use sane_in_the_membrane.Common.{ℕ, ◌<◌, ◌≡◌, refl, false, List, [], ◌∷◌, none, some, arith, All}
use sane_in_the_membrane.Common.Exec.{ok, ◌>>=◌}
use sane_in_the_membrane.Sane.Status.{good}
use sane_in_the_membrane.Sane.Backend.{Backend, SaneParameters}
use sane_in_the_membrane.Sane.Device.{
  SaneDevice, started, open_device, start_device, refresh_parameters,
}
use sane_in_the_membrane.Scan.{
  GrpcCall, start_write, Scan, grpc_ok, start_scan, new_reactor, write_sane_parameters,
  reset_response, Reactor, ScanResponse,
}
use sane_in_the_membrane.Scan.Stream.{Yields, scan_of}
use sane_in_the_membrane.Scan.Deliver.{writes_done, writes_done-Outcome, IsBounded, sent, finishes}

module _ (b : Backend) where
  open b use {World, sane_open, sane_start, sane_get_parameters}

  -- The device opens at the handle `h`, starts and tells its parameters.
  pub record Starts (d : SaneDevice) (w : World) (h : ℕ) (p : SaneParameters) (w' : World)
      : Type 0 where
    pub mid : World
    pub opens : sane_open w d.device_name d.handle ≡ ok (good, some h, mid)
    pub starts : sane_start mid h ≡ (good, w')
    pub tells : sane_get_parameters w' h ≡ (good, some p)

  abbrev pub reading_device : SaneDevice → ℕ → SaneParameters → SaneDevice
  reading_device d h p = record d { handle = some h; current_state = started; parameters = p }

  abbrev pub parameters_response : SaneDevice → SaneParameters → ScanResponse
  parameters_response d p = record {
    scanner_name = d.device_name;
    raw_bytes = none;
    parameters = some p;
  }

  abbrev pub started_reactor : SaneDevice → SaneParameters → Reactor
  started_reactor d p = record {
    response = parameters_response d p;
    byte_data = [];
    buffer = [];
    finished = false;
    calls = start_write (parameters_response d p) ∷ [];
  }

  start_scan-Starts :
      (d : SaneDevice) (w : World) {h : ℕ} {p : SaneParameters} {w' : World}
      → Starts d w h p w'
      → start_scan b (scan_of b new_reactor d w)
        ≡ ok (scan_of b (started_reactor d p) (reading_device d h p) w')
  unfolding start_scan open_device start_device refresh_parameters reset_response
      write_sane_parameters
  start_scan-Starts d w s = simp (s.opens, s.starts, s.tells)

  -- A scan of a device that opens, starts and yields its data sends the parameters of the device first, then every
  -- byte of the data in order, in bounded packets, and finishes the call once, with success. So it is for every number of reported writes above the number
  -- of reads, with a round of fuel for each read.
  pub scan_complete :
      (d : SaneDevice) (w : World) {h n : ℕ} {p : SaneParameters} {w₁ w₂ : World} {bs : List ℕ}
      (fuel k : ℕ)
      → Starts d w h p w₁
      → Yields b h n w₁ bs w₂
      → n < fuel
      → n < k
      → (s : Scan b) × ((start_scan b (scan_of b new_reactor d w) >>= writes_done b fuel k) ≡ ok s)
        × (sent s.reactor.calls ≡ bs)
        × (finishes s.reactor.calls ≡ grpc_ok ∷ [])
        × All IsBounded s.reactor.calls
        × (s.device ≡ reading_device d h p)
        × (s.world ≡ w₂)
        × (rest : List GrpcCall) × (s.reactor.calls ≡ start_write (parameters_response d p) ∷ rest)
  scan_complete d w {h = h} {p = p} fuel k s y hf hk =
      let (s', run, o, fin, we, de) =
        writes_done-Outcome b k fuel (started_reactor d p) (reading_device d h p) y (refl, refl)
          refl (omega arith, tt) hf hk in
      (
        s',
        rw (start_scan-Starts d w s) run,
        o.sends,
        o.ends,
        o.bounded,
        de,
        we,
        o.extends.0,
        o.extends.1,
      )
