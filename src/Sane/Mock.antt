-- ===== src/Sane/Mock.antt =====
-- The mock SANE library of sane_wrapper/mock/SaneMock.{hpp,cpp}. Devices and handles live in vectors
-- that only grow, so the address of a handle is its index and one, and a device pointer is the
-- device. A failed SITM_ASSERT and a null dereference are faults.
pub mod Handles
use Prim.Native.String.{String}
use text.Mathlib.Text.{◌==◌ as str_eq}
use sane_in_the_membrane.Common.{
  ℕ, zero, suc, ◌+◌, ◌-◌, ◌≡◌, Bool, true, false, not, List, [], ◌∷◌, ◌++◌, map, Option, none, some,
  ◌==◌, ltb, if◌then◌else◌, get_elem?, length, replicate, min,
}
use sane_in_the_membrane.Common.Exec.{Exec, ok, fault, ◌>>=◌}
use sane_in_the_membrane.Sane.Status.{SaneStatus, good, inval, eof, unsupported}
use sane_in_the_membrane.Sane.Backend.{RawDevice, SaneParameters, OptionDescriptor, Backend}

pub record MockHandle : Type 0 where
  pub option_descriptor : OptionDescriptor
  pub is_open : Bool
  pub device : RawDevice
  pub parameters : SaneParameters
  pub is_started : Bool
  pub is_cancelled : Bool
  pub max_read_length : ℕ
  pub bytes_read : ℕ

pub record MockWorld : Type 0 where
  pub initialized : Bool
  pub devices : List RawDevice
  pub handles : List MockHandle

abbrev pub default_max_read_length : ℕ
default_max_read_length = 1024

-- `SANE_FRAME_RED` is 2.
abbrev pub default_parameters : SaneParameters
default_parameters = record {
  format = 2;
  last_frame = true;
  bytes_per_line = 1024;
  pixels_per_line = 1024;
  lines = 1024;
  depth = 8;
}

-- `CMockHandle(SMockDevice*)`.
abbrev pub new_handle : RawDevice → MockHandle
new_handle device = record {
  option_descriptor = record { size = 0 };
  is_open = false;
  device = device;
  parameters = default_parameters;
  is_started = false;
  is_cancelled = false;
  max_read_length = default_max_read_length;
  bytes_read = 0;
}

abbrev pub set_max_read_bytes : ℕ → MockHandle → MockHandle
set_max_read_bytes n m = record m { bytes_read = 0; max_read_length = n }

abbrev pub set_bytes_read : ℕ → MockHandle → MockHandle
set_bytes_read n m = record m { bytes_read = n }

unfoldable pub get_read_bytes_capacity : MockHandle → ℕ
get_read_bytes_capacity m =
    if ltb m.max_read_length m.bytes_read then 0 else m.max_read_length - m.bytes_read

-- `get_handle(const SANE_Handle)`.
unfoldable pub get_handle : List MockHandle → ℕ → Option MockHandle
get_handle handles zero = none
get_handle handles (suc i) = get_elem? handles i

-- A write through the pointer that `get_handle` returned.
unfoldable pub update_index : List MockHandle → ℕ → (MockHandle → MockHandle) → List MockHandle
update_index [] i f = []
update_index (m ∷ handles) zero f = f m ∷ handles
update_index (m ∷ handles) (suc i) f = m ∷ update_index handles i f

unfoldable pub update_handle : List MockHandle → ℕ → (MockHandle → MockHandle) → List MockHandle
unfolding update_index
update_handle handles zero f = handles
update_handle handles (suc i) f = update_index handles i f

abbrev pub with_handle : MockWorld → ℕ → (MockHandle → MockHandle) → MockWorld
with_handle w h f = record w { handles = update_handle w.handles h f }

-- `get_handle(const std::string&)`, from the index `i` on.
unfoldable pub find_handle : ℕ → String → List MockHandle → Option ℕ
find_handle i name [] = none
find_handle i name (m ∷ handles) =
    if str_eq m.device.name name then some (suc i) else find_handle (suc i) name handles

unfoldable pub find_device : String → List RawDevice → Option RawDevice
find_device name [] = none
find_device name (d ∷ devices) = if str_eq d.name name then some d else find_device name devices

create_handle : MockWorld → Option RawDevice → Option (ℕ × MockWorld)
create_handle w none = none
create_handle w (some d) =
    some (suc (length w.handles), record w { handles = w.handles ++ (new_handle d ∷ []) })

or_create : MockWorld → String → Option ℕ → Option (ℕ × MockWorld)
unfolding create_handle find_device
or_create w name (some h) = some (h, w)
or_create w name none = create_handle w (find_device name w.devices)

unfoldable pub get_or_create_handle : MockWorld → String → Option (ℕ × MockWorld)
unfolding or_create find_handle
get_or_create_handle w name = or_create w name (find_handle 0 name w.handles)

abbrev pub add_device : MockWorld → RawDevice → MockWorld
add_device w d = record w { devices = w.devices ++ (d ∷ []) }

-- The copy keeps the option descriptor and the open flag.
abbrev pub add_handle : MockWorld → MockHandle → MockWorld
add_handle w m = record w {
  devices = w.devices ++ (m.device ∷ []);
  handles =
      w.handles
      ++ (record (new_handle m.device) {
        option_descriptor = m.option_descriptor;
        is_open = m.is_open;
      }
          ∷ []);
}

abbrev pub mock_init : MockWorld → SaneStatus × MockWorld
mock_init w = (good, record w { initialized = true })

abbrev pub mock_exit : MockWorld → MockWorld
mock_exit w = record w { initialized = false }

unfoldable pub mock_get_devices : MockWorld → Bool → Exec (SaneStatus × List RawDevice × MockWorld)
mock_get_devices w local_only = if w.initialized then ok (good, w.devices, w) else fault

opened_handle : Option (ℕ × MockWorld) → Exec (SaneStatus × Option ℕ × MockWorld)
opened_handle none = fault
opened_handle (some (h, w)) = ok (good, some h, with_handle w h (λ m. record m { is_open = true }))

-- A zero-length name asks for the first device.
first_device : List RawDevice → Exec String
first_device [] = fault
first_device (d ∷ devices) = ok d.name

unfoldable pub mock_open : MockWorld → String → Option ℕ → Exec (SaneStatus × Option ℕ × MockWorld)
unfolding opened_handle first_device get_or_create_handle
mock_open w name old =
    if str_eq name ""
    then (first_device w.devices >>= λ first. opened_handle (get_or_create_handle w first))
    else opened_handle (get_or_create_handle w name)

close_found : MockWorld → ℕ → Option MockHandle → Exec MockWorld
close_found w h none = ok w
close_found w h (some m) =
    if m.is_cancelled
    then ok (with_handle w h (λ m'. record m' { is_open = false; is_cancelled = false }))
    else fault

unfoldable pub mock_close : MockWorld → ℕ → Exec MockWorld
unfolding close_found get_handle update_handle
mock_close w h = close_found w h (get_handle w.handles h)

abbrev pub descriptor_of : Option MockHandle → Option OptionDescriptor
descriptor_of none = none
descriptor_of (some m) = some m.option_descriptor

unfoldable pub mock_get_option_descriptor : MockWorld → ℕ → ℕ → Option OptionDescriptor
unfolding get_handle
mock_get_option_descriptor w h n = descriptor_of (get_handle w.handles h)

abbrev pub mock_control_option : MockWorld → ℕ → ℕ → SaneStatus × MockWorld
mock_control_option w h n = (unsupported, w)

abbrev pub parameters_of : Option MockHandle → SaneStatus × Option SaneParameters
parameters_of none = (inval, none)
parameters_of (some m) = (good, some m.parameters)

unfoldable pub mock_get_parameters : MockWorld → ℕ → SaneStatus × Option SaneParameters
unfolding get_handle
mock_get_parameters w h = parameters_of (get_handle w.handles h)

start_found : MockWorld → ℕ → Option MockHandle → SaneStatus × MockWorld
start_found w h none = (inval, w)
start_found w h (some m) =
    (good, with_handle w h (λ m'. record m' { is_started = true; is_cancelled = false }))

unfoldable pub mock_start : MockWorld → ℕ → SaneStatus × MockWorld
unfolding start_found get_handle update_handle
mock_start w h = start_found w h (get_handle w.handles h)

read_found : MockWorld → ℕ → ℕ → Option MockHandle → Exec (SaneStatus × Option (List ℕ) × MockWorld)
unfolding get_read_bytes_capacity
read_found w h max_length none = ok (inval, none, w)
read_found w h max_length (some m) =
    let capacity = get_read_bytes_capacity m in
    let write_bytes = if ltb capacity max_length then capacity else max_length in
    if not m.is_started
    then fault
    else if capacity == 0
    then ok (eof, some [], w)
    else ok (
      good,
      some (replicate write_bytes 1),
      with_handle w h (λ m'. set_bytes_read (m'.bytes_read + write_bytes) m'),
    )

unfoldable pub mock_read : MockWorld → ℕ → ℕ → Exec (SaneStatus × Option (List ℕ) × MockWorld)
unfolding read_found get_handle update_handle
mock_read w h max_length = read_found w h max_length (get_handle w.handles h)

unfoldable pub mock_cancel : MockWorld → Option ℕ → MockWorld
unfolding update_handle
mock_cancel w none = w
mock_cancel w (some h) = with_handle w h (λ m. record m { is_started = false; is_cancelled = true })

abbrev pub mock_set_io_mode : MockWorld → Option ℕ → Bool → SaneStatus × MockWorld
mock_set_io_mode w h non_blocking = (unsupported, w)

abbrev pub mock_backend : Backend
mock_backend = record {
  World = MockWorld;
  sane_get_devices = mock_get_devices;
  sane_open = mock_open;
  sane_close = mock_close;
  sane_get_option_descriptor = mock_get_option_descriptor;
  sane_control_option = mock_control_option;
  sane_get_parameters = mock_get_parameters;
  sane_start = mock_start;
  sane_read = mock_read;
  sane_cancel = mock_cancel;
  sane_set_io_mode = mock_set_io_mode;
}
