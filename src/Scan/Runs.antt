-- ===== src/Scan/Runs.antt =====
-- Concrete scans, and the theorems at them.
use sane_in_the_membrane.Common.{
  ℕ, ◌≡◌, refl, true, false, Bool, List, [], ◌∷◌, none, some, arith, replicate, All,
}
use sane_in_the_membrane.Common.Exec.{ok, ◌>>=◌, Ensures}
use sane_in_the_membrane.Sane.Status.{good, device_busy, inval, unsupported}
use sane_in_the_membrane.Sane.Backend.{Backend}
use sane_in_the_membrane.Sane.Device.{SaneDevice, started}
use sane_in_the_membrane.Sane.Mock.{
  MockHandle, MockWorld, mock_backend, default_parameters, new_handle, mock_open, mock_start,
  mock_read, mock_get_parameters,
}
use sane_in_the_membrane.Scan.{
  GrpcCall, start_write, Scan, grpc_ok, finish_call, cancelled, aborted, start_scan, new_reactor,
  on_done, on_write_done,
}
use sane_in_the_membrane.Scan.Stream.{Yields, ends, more, scan_of}
use sane_in_the_membrane.Scan.Deliver.{writes_done, sent, finishes, IsBounded}
use sane_in_the_membrane.Scan.Complete.{parameters_response, Starts, reading_device, scan_complete}
use sane_in_the_membrane.Scan.OnMock.{scan_on_mock}
use sane_in_the_membrane.Scan.Guards.{
  IsOrderlyScan, written, client_cancelled, scan_run, start_scan-scan_run-IsOrderly,
}
use sane_in_the_membrane.Scan.Sample.{flatbed, five_bytes, device, five_bytes-IsKnown}
use sane_in_the_membrane.Scan.Sharing.{closed_device, second_scan_aborts_first}

abbrev handle_after : Bool → ℕ → MockHandle
handle_after opened n = record (new_handle flatbed) {
  is_open = true;
  is_started = opened;
  max_read_length = 5;
  bytes_read = n;
}

abbrev world_after : Bool → ℕ → MockWorld
world_after opened n = record five_bytes { handles = handle_after opened n ∷ [] }

five_bytes-Starts : Starts mock_backend device five_bytes 1 default_parameters (world_after true 0)
unfolding mock_open mock_start mock_get_parameters
five_bytes-Starts = record { mid = world_after false 0; opens = refl; starts = refl; tells = refl }

five_bytes-Yields :
    Yields mock_backend 1 1 (world_after true 0) (replicate 5 1) (world_after true 5)
unfolding mock_read
five_bytes-Yields = more (replicate 5 1) refl (omega arith) (ends refl)

scan_complete_example :
    (s : Scan mock_backend) × ((start_scan mock_backend
          (scan_of mock_backend new_reactor device five_bytes)
        >>= writes_done mock_backend 2 2)
      ≡ ok s)
    × (sent s.reactor.calls ≡ replicate 5 1)
    × (finishes s.reactor.calls ≡ grpc_ok ∷ [])
    × All IsBounded s.reactor.calls
    × (s.device ≡ reading_device mock_backend device 1 default_parameters)
    × (s.world ≡ world_after true 5)
    × (rest : List GrpcCall) × (s.reactor.calls
        ≡ start_write (parameters_response mock_backend device default_parameters) ∷ rest)
scan_complete_example =
    scan_complete mock_backend device five_bytes 2 2 five_bytes-Starts five_bytes-Yields
      (omega arith) (omega arith)

scan_on_mock_example :
    (s : Scan mock_backend) × ((start_scan mock_backend
          (scan_of mock_backend new_reactor device five_bytes)
        >>= writes_done mock_backend 6 6)
      ≡ ok s)
    × (sent s.reactor.calls ≡ replicate 5 1)
    × (finishes s.reactor.calls ≡ grpc_ok ∷ [])
    × All IsBounded s.reactor.calls
scan_on_mock_example = scan_on_mock device five_bytes-IsKnown 6 6 (omega arith) (omega arith)

start_scan-scan_run-IsOrderly_example : Ensures (IsOrderlyScan mock_backend) (
    start_scan mock_backend (record { reactor = new_reactor; device = device; world = five_bytes })
    >>= λ s. scan_run mock_backend 2 s (written true ∷ client_cancelled ∷ written false ∷ []))
start_scan-scan_run-IsOrderly_example =
    start_scan-scan_run-IsOrderly mock_backend 2 device five_bytes
      (written true ∷ client_cancelled ∷ written false ∷ [])

-- A library that is never free: an open is refused and leaves the handle alone.
abbrev busy_backend : Backend
busy_backend = record {
  World = ℕ;
  sane_get_devices = λ w local_only. ok (good, [], w);
  sane_open = λ w name old. ok (device_busy, old, w);
  sane_close = λ w h. ok w;
  sane_get_option_descriptor = λ w h n. none;
  sane_control_option = λ w h n. (unsupported, w);
  sane_get_parameters = λ w h. (inval, none);
  sane_start = λ w h. (inval, w);
  sane_read = λ w h n. ok (good, some (1 ∷ []), w);
  sane_cancel = λ w h. w;
  sane_set_io_mode = λ w h non_blocking. (unsupported, w);
}

abbrev busy_device : SaneDevice
busy_device = record device { handle = some 1; current_state = started }

second_scan_aborts_first_example :
    (second : Scan busy_backend) × (start_scan busy_backend
        (scan_of busy_backend new_reactor busy_device 0)
      ≡ ok second)
    × (second.reactor.calls ≡ finish_call (cancelled device_busy) ∷ [])
    × (on_done busy_backend second ≡ ok (closed_device busy_backend busy_device, 0))
    × (s : Scan busy_backend) × (on_write_done busy_backend 1 true
          (scan_of busy_backend new_reactor (closed_device busy_backend busy_device) 0)
        ≡ ok s)
    × (s.reactor.calls ≡ finish_call (aborted inval) ∷ [])
second_scan_aborts_first_example =
    second_scan_aborts_first busy_backend busy_device 0 0 0 1 device_busy (refl, refl) refl refl
      refl 0 new_reactor refl
