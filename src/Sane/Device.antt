-- ===== src/Sane/Device.antt =====
-- `CSaneDevice` of sane_wrapper/include/SaneDevice.hpp and sane_wrapper/src/SaneDevice.cpp.
-- A method takes the device and the state behind the API and returns both.
use Prim.Native.String.{String}
use sane_in_the_membrane.Common.{
  ℕ, Bool, true, false, not, List, [], ◌∷◌, ◌++◌, Option, none, some, ◌==◌, if◌then◌else◌,
}
use sane_in_the_membrane.Common.Exec.{Exec, ok, fault, ◌>>=◌}
use sane_in_the_membrane.Sane.Status.{SaneStatus, inval, is_ok}
use sane_in_the_membrane.Sane.Backend.{RawDevice, SaneParameters, OptionDescriptor, Backend}

pub data DeviceState : Type 0 where
  opened closed started cancelling : DeviceState

abbrev pub is_opened : DeviceState → Bool
is_opened opened = true
is_opened closed = false
is_opened started = false
is_opened cancelling = false

abbrev pub is_started : DeviceState → Bool
is_started opened = false
is_started closed = false
is_started started = true
is_started cancelling = false

-- `m_buffer` is the stored prefix of `m_data`, `read_len` bytes long.
pub record SaneDevice : Type 0 where
  pub raw_device : Option RawDevice
  pub handle : Option ℕ
  pub max_options_n : ℕ
  pub option_descriptors : List (ℕ × OptionDescriptor)
  pub parameters : SaneParameters
  pub current_state : DeviceState
  pub buffer : List ℕ
  pub device_name : String

abbrev pub no_parameters : SaneParameters
no_parameters = record {
  format = 0;
  last_frame = false;
  bytes_per_line = 0;
  pixels_per_line = 0;
  lines = 0;
  depth = 0;
}

unfoldable pub new_device : RawDevice → SaneDevice
new_device raw = record {
  raw_device = some raw;
  handle = none;
  max_options_n = 0;
  option_descriptors = [];
  parameters = no_parameters;
  current_state = closed;
  buffer = [];
  device_name = raw.name;
}

abbrev pub clear_raw_device : SaneDevice → SaneDevice
clear_raw_device d = record d { raw_device = none }

-- `sizeof m_data` of a `CSaneDeviceBuffer<2048>`.
abbrev pub buffer_size : ℕ
buffer_size = 2048

module _ (b : Backend) where
  open b use {
    World, sane_open, sane_close, sane_get_option_descriptor, sane_control_option,
    sane_get_parameters, sane_start, sane_read, sane_cancel, sane_set_io_mode,
  }

  unfoldable pub open_device : SaneDevice → World → Exec (SaneStatus × SaneDevice × World)
  open_device d w = do
    (status, h, w') ← sane_open w d.device_name d.handle
    ok (
      status,
      record d { handle = h; current_state = if is_ok status then opened else d.current_state },
      w',
    )

  close_handle : SaneDevice → Option ℕ → World → Exec (SaneDevice × World)
  close_handle d none w = ok (d, w)
  close_handle d (some h) w = sane_close (sane_cancel w (some h)) h >>= λ w'.
      ok (record d { handle = none; current_state = closed }, w')

  unfoldable pub close_device : SaneDevice → World → Exec (SaneDevice × World)
  unfolding close_handle
  close_device d w = close_handle (record d { option_descriptors = [] }) d.handle w

  -- A null descriptor of option 0 is dereferenced.
  note_option : SaneDevice → ℕ → Option OptionDescriptor → Exec SaneDevice
  note_option d n none = if n == 0 then fault else ok d
  note_option d n (some o) = ok (record d {
    option_descriptors = d.option_descriptors ++ ((n, o) ∷ []);
    max_options_n = if n == 0 then o.size else d.max_options_n;
  })

  option_descriptor :
      SaneDevice → Option ℕ → ℕ → World → Exec (Option OptionDescriptor × SaneDevice)
  unfolding note_option
  option_descriptor d none n w = ok (none, d)
  option_descriptor d (some h) n w =
      if not (is_opened d.current_state)
      then ok (none, d)
      else (let o = sane_get_option_descriptor w h n in note_option d n o >>= λ d'. ok (o, d'))

  unfoldable pub get_option_descriptor :
      SaneDevice → ℕ → World → Exec (Option OptionDescriptor × SaneDevice)
  unfolding option_descriptor
  get_option_descriptor d n w = option_descriptor d d.handle n w

  control : DeviceState → Option ℕ → ℕ → World → SaneStatus × World
  control s none n w = (inval, w)
  control s (some h) n w = if not (is_opened s) then (inval, w) else sane_control_option w h n

  unfoldable pub control_option : SaneDevice → ℕ → World → SaneStatus × World
  unfolding control
  control_option d n w = control d.current_state d.handle n w

  stored_parameters : SaneDevice → SaneStatus × Option SaneParameters → SaneStatus × SaneDevice
  stored_parameters d (status, none) = (status, d)
  stored_parameters d (status, some p) = (status, record d { parameters = p })

  refresh : SaneDevice → Option ℕ → World → SaneStatus × SaneDevice
  unfolding stored_parameters
  refresh d none w = (inval, d)
  refresh d (some h) w = stored_parameters d (sane_get_parameters w h)

  unfoldable pub refresh_parameters : SaneDevice → World → SaneStatus × SaneDevice
  unfolding refresh
  refresh_parameters d w = refresh d d.handle w

  start_handle : SaneDevice → Option ℕ → World → SaneStatus × SaneDevice × World
  start_handle d none w = (inval, d, w)
  start_handle d (some h) w =
      if not (is_opened d.current_state)
      then (inval, d, w)
      else (let (status, w') = sane_start w h in
          (
            status,
            record d { current_state = if is_ok status then started else d.current_state },
            w',
          ))

  unfoldable pub start_device : SaneDevice → World → SaneStatus × SaneDevice × World
  unfolding start_handle
  start_device d w = start_handle d d.handle w

  abbrev pub stored : List ℕ → Option (List ℕ) → List ℕ
  stored old none = old
  stored old (some new) = new

  read_handle : DeviceState → Option ℕ → List ℕ → World → Exec (SaneStatus × List ℕ × World)
  read_handle s none buffer w = ok (inval, buffer, w)
  read_handle s (some h) buffer w =
      if not (is_started s)
      then ok (inval, buffer, w)
      else (sane_read w h buffer_size >>= λ (status, bytes, w').
          ok (status, stored buffer bytes, w'))

  -- `read(CSaneDeviceBuffer<N>&)` for the 2048 bytes that every caller passes.
  unfoldable pub read_into : SaneDevice → List ℕ → World → Exec (SaneStatus × List ℕ × World)
  unfolding read_handle
  read_into d buffer w = read_handle d.current_state d.handle buffer w

  unfoldable pub read_device : SaneDevice → World → Exec (SaneStatus × SaneDevice × World)
  unfolding read_into
  read_device d w = do
    (status, bytes, w') ← read_into d d.buffer w
    ok (status, record d { buffer = bytes }, w')

  -- The state is `cancelling` only inside the call.
  unfoldable pub cancel_device : SaneDevice → World → SaneDevice × World
  cancel_device d w =
      let old_state = d.current_state in
      let d₁ = record d { current_state = cancelling } in
      (record d₁ { current_state = old_state }, sane_cancel w d₁.handle)

  unfoldable pub set_io_mode : SaneDevice → Bool → World → SaneStatus × World
  set_io_mode d non_blocking w = sane_set_io_mode w d.handle non_blocking
