-- ===== src/Service/Runs.antt =====
-- A concrete service, and the theorems at it.
use sane_in_the_membrane.Common.{◌≡◌, refl, false, [], ◌∷◌, some, arith}
use sane_in_the_membrane.Common.Exec.{ok}
use sane_in_the_membrane.Sane.Device.{SaneDevice, no_parameters, started}
use sane_in_the_membrane.Sane.Mock.{mock_backend, mock_get_devices}
use sane_in_the_membrane.Scan.Sample.{flatbed, five_bytes}
use sane_in_the_membrane.Service.{
  ScannerService, expired, refresh_devices, get_scanners, scan_device,
}
use sane_in_the_membrane.Service.Find.{
  Answers, info, map_option, first_raw, refresh_devices-get_scanners,
}
use sane_in_the_membrane.Service.Running.{IsKept, refresh_devices-IsKept}

abbrev scanning : SaneDevice
scanning = record {
  raw_device = some flatbed;
  handle = some 0;
  max_options_n = 0;
  option_descriptors = [];
  parameters = no_parameters;
  current_state = started;
  buffer = [];
  device_name = "flatbed";
}

-- One device, which a scan is reading.
abbrev service : ScannerService mock_backend
service = record {
  heap = scanning ∷ [];
  devices = 0 ∷ [];
  running = 0 ∷ [];
  known = 0 ∷ [];
  last_device_fetch = 100;
  world = five_bytes;
}

answers : Answers mock_backend service 200 (flatbed ∷ []) five_bytes
unfolding mock_get_devices
answers = record { status = _; answer = refl; success = refl; late = omega arith }

refresh_devices-get_scanners_example :
    (s' : ScannerService mock_backend) × (refresh_devices mock_backend 200 service ≡ ok s')
    × (get_scanners mock_backend 210 s' ≡ ok (info flatbed ∷ [], s'))
    × ((scan_device mock_backend s' "flatbed").0 ≡ map_option (first_raw "flatbed" (flatbed ∷ [])))
refresh_devices-get_scanners_example =
    refresh_devices-get_scanners mock_backend service 200 210 (flatbed ∷ []) five_bytes "flatbed"
      answers (omega arith)

refresh_devices-IsKept_example :
    (s' : ScannerService mock_backend) × (refresh_devices mock_backend 200 service ≡ ok s')
    × IsKept scanning s'.heap 0
    × (expired mock_backend s' 0 ≡ false)
refresh_devices-IsKept_example =
    refresh_devices-IsKept mock_backend service 200 (flatbed ∷ []) five_bytes 0 scanning answers
      refl refl
