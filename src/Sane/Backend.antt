-- ===== src/Sane/Backend.antt =====
-- The SANE API as the wrapper calls it. The library behind it is a parameter; the mock of
-- sane_wrapper/mock is one value. A handle is a non-null pointer's address, `none` the null pointer.
use Prim.Native.String.{String}
use sane_in_the_membrane.Common.{ℕ, Bool, List, Option}
use sane_in_the_membrane.Common.Exec.{Exec}
use sane_in_the_membrane.Sane.Status.{SaneStatus}

-- `SANE_Device`.
pub record RawDevice : Type 0 where
  pub name : String
  pub vendor : String
  pub model : String
  pub type : String

-- `SANE_Parameters`; a number is its 64-bit pattern, as the protocol carries it.
pub record SaneParameters : Type 0 where
  pub format : ℕ
  pub last_frame : Bool
  pub bytes_per_line : ℕ
  pub pixels_per_line : ℕ
  pub lines : ℕ
  pub depth : ℕ

-- `SANE_Option_Descriptor`, of which the wrapper reads the size.
pub record OptionDescriptor : Type 0 where
  pub size : ℕ

-- The state behind the API is `World`. `sane_open` is given what the handle variable holds and says
-- what it holds afterwards; `sane_read` returns the bytes that it stored, or `none` where it leaves
-- the length and the buffer alone.
pub record Backend : Type 1 where
  pub World : Type 0
  pub sane_get_devices : World → Bool → Exec (SaneStatus × List RawDevice × World)
  pub sane_open : World → String → Option ℕ → Exec (SaneStatus × Option ℕ × World)
  pub sane_close : World → ℕ → Exec World
  pub sane_get_option_descriptor : World → ℕ → ℕ → Option OptionDescriptor
  pub sane_control_option : World → ℕ → ℕ → SaneStatus × World
  pub sane_get_parameters : World → ℕ → SaneStatus × Option SaneParameters
  pub sane_start : World → ℕ → SaneStatus × World
  pub sane_read : World → ℕ → ℕ → Exec (SaneStatus × Option (List ℕ) × World)
  pub sane_cancel : World → Option ℕ → World
  pub sane_set_io_mode : World → Option ℕ → Bool → SaneStatus × World
