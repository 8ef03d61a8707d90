-- ===== src/Sane/Status.antt =====
-- `CSaneStatus` of sane_wrapper/include/SaneStatus.hpp and sane_wrapper/src/SaneStatus.cpp, over the
-- values of `SANE_Status`.
use sane_in_the_membrane.Common.{ℕ, ◌≡◌, ◌↔◌, Bool, true, not, ◌==◌, arith}
use Prim.Native.String.{String}

pub data SaneStatus : Type 0 where
  good unsupported cancelled device_busy inval eof jammed no_docs : SaneStatus
  cover_open io_error no_mem access_denied : SaneStatus

-- The values of the C enumeration.
abbrev pub status_code : SaneStatus → ℕ
status_code good = 0
status_code unsupported = 1
status_code cancelled = 2
status_code device_busy = 3
status_code inval = 4
status_code eof = 5
status_code jammed = 6
status_code no_docs = 7
status_code cover_open = 8
status_code io_error = 9
status_code no_mem = 10
status_code access_denied = 11

-- `operator==` and `operator!=`, on two values of either type.
abbrev pub status_eq : SaneStatus → SaneStatus → Bool
status_eq a b = status_code a == status_code b

abbrev pub status_ne : SaneStatus → SaneStatus → Bool
status_ne a b = not (status_eq a b)

abbrev pub is_ok : SaneStatus → Bool
is_ok s = status_eq s good

-- `sane_strstatus` of sane_wrapper/mock/SaneMock.cpp.
unfoldable pub str_status : SaneStatus → String
str_status good = "GOOD"
str_status unsupported = "UNSUPPORTED"
str_status cancelled = "CANCELLED"
str_status device_busy = "DEVICE_BUSY"
str_status inval = "INVAL"
str_status eof = "EOF"
str_status jammed = "JAMMED"
str_status no_docs = "NO_DOCS"
str_status cover_open = "COVER_OPEN"
str_status io_error = "IO_ERROR"
str_status no_mem = "NO_MEM"
str_status access_denied = "ACCESS_DENIED"

pub is_ok_iff : (s : SaneStatus) → (is_ok s ≡ true) ↔ (s ≡ good)
is_ok_iff s = ground arith
