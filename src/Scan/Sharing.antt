-- ===== src/Scan/Sharing.antt =====
-- Two scans of one device: both reactors of server/src/Reactors/ScanResponseReactor.cpp hold the same
-- `CSaneDevice`, since `CScannerService::find_device` hands out shared pointers to it.
use sane_in_the_membrane.Common.{ℕ, suc, ◌≡◌, refl, ◌∙◌, true, false, [], ◌∷◌, ◌++◌, none, some}
use sane_in_the_membrane.Common.Exec.{ok}
use sane_in_the_membrane.Sane.Status.{SaneStatus, inval, is_ok}
use sane_in_the_membrane.Sane.Backend.{Backend}
use sane_in_the_membrane.Sane.Device.{SaneDevice, closed, open_device, close_device, read_into}
use sane_in_the_membrane.Scan.{
  Reactor, Scan, finish_call, aborted, cancelled, start_scan, new_reactor, on_done, on_write_done,
  next_packet, read_loop, reset_response, finish,
}
use sane_in_the_membrane.Scan.Deliver.{on_write_done-next}
use sane_in_the_membrane.Scan.Stream.{IsReading, scan_of}

module _ (b : Backend) where
  open b use {World, sane_open, sane_close, sane_cancel}

  abbrev pub closed_device : SaneDevice → SaneDevice
  closed_device d = record d { option_descriptors = []; handle = none; current_state = closed }

  read_loop-closed :
      (fuel : ℕ) (r : Reactor) (d : SaneDevice) (w : World)
      → read_loop b (suc fuel) (scan_of b (record r { byte_data = [] }) (closed_device d) w)
        ≡ ok (scan_of b (finish (aborted inval) (record r { byte_data = [] })) (closed_device d) w)
  unfolding read_loop read_into
  read_loop-closed fuel r d w = refl

  module _ (d : SaneDevice) (w w₁ w₂ : World) (h : ℕ) (status : SaneStatus)
      (reading : IsReading b h d)
      (busy : sane_open w d.device_name (some h) ≡ ok (status, some h, w₁))
      (refused : is_ok status ≡ false)
      (closes : sane_close (sane_cancel w₁ (some h)) h ≡ ok w₂) where
    -- While a scan reads the device, a second scan of it that the library refuses to open, leaving
    -- the handle as it was, is finished as cancelled; when gRPC is done with it, it closes the device
    -- of the first scan, whose next packet then ends in an abort.
    pub second_scan_aborts_first :
        (fuel : ℕ) (first : Reactor)
        → first.finished ≡ false
        → (second : Scan b) × (start_scan b (scan_of b new_reactor d w) ≡ ok second)
          × (second.reactor.calls ≡ finish_call (cancelled status) ∷ [])
          × (on_done b second ≡ ok (closed_device d, w₂))
          × (s : Scan b) × (on_write_done b (suc fuel) true (scan_of b first (closed_device d) w₂)
              ≡ ok s)
          × (s.reactor.calls ≡ first.calls ++ (finish_call (aborted inval) ∷ []))
    unfolding start_scan open_device reset_response finish on_done close_device next_packet
    second_scan_aborts_first fuel first live = (
      scan_of b (finish (cancelled status) (reset_response d.device_name new_reactor))
          (record d { handle = some h }) w₁,
      simp (reading.0, busy, refused),
      refl,
      simp closes,
      scan_of b (finish (aborted inval) (reset_response d.device_name first)) (closed_device d) w₂,
      first_aborts,
      simp live,
    )
      where
        first_aborts :
            on_write_done b (suc fuel) true (scan_of b first (closed_device d) w₂)
            ≡ ok (
                scan_of b
                  (finish (aborted inval) (reset_response d.device_name first))
                  (closed_device d)
                  w₂)
        first_aborts =
            on_write_done-next b (suc fuel) (scan_of b first (closed_device d) w₂) live
            ∙ read_loop-closed fuel (reset_response d.device_name first) d w₂
