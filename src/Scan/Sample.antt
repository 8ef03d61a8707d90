-- ===== src/Scan/Sample.antt =====
-- A device of the mock library with five bytes to read.
use sane_in_the_membrane.Common.{refl, true, [], ◌∷◌, none, some, arith}
use sane_in_the_membrane.Sane.Backend.{RawDevice}
use sane_in_the_membrane.Sane.Device.{SaneDevice, closed, no_parameters}
use sane_in_the_membrane.Sane.Mock.{
  MockWorld, new_handle, set_max_read_bytes, get_handle, get_or_create_handle,
}
use sane_in_the_membrane.Scan.OnMock.{IsKnown}

abbrev pub flatbed : RawDevice
flatbed = record { name = "flatbed"; vendor = "acme"; model = "one"; type = "scanner" }

-- One handle with five bytes to read.
abbrev pub five_bytes : MockWorld
five_bytes = record {
  initialized = true;
  devices = flatbed ∷ [];
  handles = set_max_read_bytes 5 (new_handle flatbed) ∷ [];
}

abbrev pub device : SaneDevice
device = record {
  raw_device = some flatbed;
  handle = none;
  max_options_n = 0;
  option_descriptors = [];
  parameters = no_parameters;
  current_state = closed;
  buffer = [];
  device_name = "flatbed";
}

pub five_bytes-IsKnown : IsKnown five_bytes "flatbed" 1 5
unfolding get_or_create_handle get_handle
five_bytes-IsKnown = record {
  named = refl;
  with_it = five_bytes;
  mock_handle = set_max_read_bytes 5 (new_handle flatbed);
  resolves = refl;
  found = refl;
  left = omega arith;
}
