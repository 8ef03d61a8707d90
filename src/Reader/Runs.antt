-- ===== src/Reader/Runs.antt =====
-- A concrete client, and the theorems at it.
use sane_in_the_membrane.Common.{◌≡◌, refl, false, List, [], ◌∷◌, none, some, arith, replicate}
use sane_in_the_membrane.Common.Exec.{ok, ◌>>=◌}
use sane_in_the_membrane.Files.FileSystem.{FileSystem}
use sane_in_the_membrane.Files.File.{File, read}
use sane_in_the_membrane.Sane.Device.{no_parameters}
use sane_in_the_membrane.Sane.Mock.{mock_backend}
use sane_in_the_membrane.Scan.{
  Scan, ScanResponse, grpc_ok, GrpcCall, start_write, finish_call, start_scan, new_reactor,
}
use sane_in_the_membrane.Scan.Stream.{scan_of}
use sane_in_the_membrane.Scan.Deliver.{writes_done}
use sane_in_the_membrane.Scan.Sample.{five_bytes, device, five_bytes-IsKnown}
use sane_in_the_membrane.Reader.{Reader, scan, receive}
use sane_in_the_membrane.Reader.Receive.{dones}
use sane_in_the_membrane.Reader.EndToEnd.{scan_to_file}

abbrev idle_reader : Reader
idle_reader = record {
  context = false;
  params = no_parameters;
  hundred_percent = 0;
  total_bytes = 0;
  in_progress = false;
  current_file = none;
  calls = [];
  signals = [];
}

abbrev empty_disk : FileSystem
empty_disk path = none

abbrev no_response : ScanResponse
no_response = record { scanner_name = ""; raw_bytes = none; parameters = none }

abbrev two_writes : List GrpcCall
two_writes =
    start_write (record no_response { raw_bytes = some (1 ∷ 2 ∷ []) })
    ∷ start_write (record no_response { raw_bytes = some (3 ∷ []) })
    ∷ finish_call grpc_ok
    ∷ []

scan_to_file_example :
    (s : Scan mock_backend) × (r' : Reader) × (fs' : FileSystem) × (f : File) × ((start_scan
          mock_backend
          (scan_of mock_backend new_reactor device five_bytes)
        >>= writes_done mock_backend 6 6)
      ≡ ok s)
    × (receive s.reactor.calls no_response
          (scan "/tmp/1" idle_reader empty_disk).0
          (scan "/tmp/1" idle_reader empty_disk).1
        ≡ ok (r', fs'))
    × (r'.current_file ≡ some f)
    × (read f fs' ≡ replicate 5 1)
    × (dones r'.signals ≡ grpc_ok ∷ [])
    × (r'.in_progress ≡ false)
scan_to_file_example =
    scan_to_file device 6 6 idle_reader "/tmp/1" empty_disk no_response five_bytes-IsKnown
      (omega arith) (omega arith) refl refl
