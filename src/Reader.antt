-- ===== src/Reader.antt =====
-- The client's side of one scan: `CScanResponseReader` of
-- gui-app/src/Readers/ScanResponseReader.{hpp,cpp}. The calls of gRPC and the Qt signals that it
-- emits are recorded in order. The path of a new temporary file is an argument.
pub mod Receive
pub mod EndToEnd
mod Runs
use Prim.Native.String.{String}
use sane_in_the_membrane.Common.{
  ℕ, ◌+◌, ◌*◌, ◌%◌, ◌^◌, Bool, true, false, List, [], ◌∷◌, ◌++◌, Option, none, some, ◌==◌, ◌||◌,
  if◌then◌else◌, length,
}
use sane_in_the_membrane.Common.Word.{add64}
use sane_in_the_membrane.Common.Exec.{Exec, ok, fault, ◌>>=◌}
use sane_in_the_membrane.Files.FileSystem.{FileSystem}
use sane_in_the_membrane.Files.File.{File, new_file, write}
use sane_in_the_membrane.Sane.Backend.{SaneParameters}
use sane_in_the_membrane.Scan.{ScanResponse, GrpcStatus, GrpcCall, start_write, finish_call}

pub data ReaderCall : Type 0 where
  async_scan start_read start_call : ReaderCall

-- The progress is bytes received of bytes expected; the source divides them as doubles.
pub data ReaderSignal : Type 0 where
  sig_progress : ℕ → ℕ → ReaderSignal
  sig_done : GrpcStatus → Option File → SaneParameters → ReaderSignal

-- `context` says whether there is a client context.
pub record Reader : Type 0 where
  pub context : Bool
  pub params : SaneParameters
  pub hundred_percent : ℕ
  pub total_bytes : ℕ
  pub in_progress : Bool
  pub current_file : Option File
  pub calls : List ReaderCall
  pub signals : List ReaderSignal

abbrev pub reset : Reader → Reader
reset r = record r { context = false; total_bytes = 0; hundred_percent = 0 }

abbrev pub start_new_file : String → Reader → FileSystem → Reader × FileSystem
unfolding new_file
start_new_file path r fs =
    let (f, fs') = new_file path fs in (record r { current_file = some f }, fs')

unfoldable pub scan : String → Reader → FileSystem → Reader × FileSystem
scan path r fs = if r.in_progress then (r, fs) else (
  record (start_new_file path (reset (record r { in_progress = true })) fs).0 {
    context = true;
    calls = r.calls ++ (async_scan ∷ start_read ∷ start_call ∷ []);
  },
  (start_new_file path (reset (record r { in_progress = true })) fs).1,
)

-- `SANE_FRAME_GRAY` and `SANE_FRAME_RGB` are sent in one frame, the others in three.
abbrev pub expected_bytes : SaneParameters → ℕ
expected_bytes p =
    (p.bytes_per_line * p.lines * (if (p.format == 1) || (p.format == 0) then 1 else 3)) % 2 ^ 64

abbrev pub take_parameters : Option SaneParameters → Reader → Reader
take_parameters none r = r
take_parameters (some p) r = record r { params = p; hundred_percent = expected_bytes p }

-- A write through a null `m_current_file` is undefined.
unfoldable pub write_data : Option File → List ℕ → Reader → FileSystem → Exec (Reader × FileSystem)
write_data none bytes r fs = fault
write_data (some f) bytes r fs =
    let (f', fs') = write f bytes fs in
    ok (record r { current_file = some f'; total_bytes = add64 r.total_bytes (length bytes) }, fs')

unfoldable pub take_data : Option (List ℕ) → Reader → FileSystem → Exec (Reader × FileSystem)
unfolding write_data
take_data none r fs = ok (r, fs)
take_data (some bytes) r fs = write_data r.current_file bytes r fs

abbrev pub report_progress : Reader → Reader
report_progress r = record r {
  signals = r.signals ++ (sig_progress r.total_bytes r.hundred_percent ∷ []);
  calls = r.calls ++ (start_read ∷ []);
}

unfoldable pub on_read_done : Bool → ScanResponse → Reader → FileSystem → Exec (Reader × FileSystem)
unfolding take_data
on_read_done false response r fs = ok (r, fs)
on_read_done true response r fs =
    take_data response.raw_bytes (take_parameters response.parameters r) fs >>= λ (r', fs').
    ok (report_progress r', fs')

unfoldable pub on_done : GrpcStatus → Reader → Reader
on_done status r =
    let r₁ = reset (record r { in_progress = false }) in
    record r₁ { signals = r₁.signals ++ (sig_done status r₁.current_file r₁.params ∷ []) }

-- gRPC delivers what the server wrote, in order, then a read that fails and the status.
unfoldable pub receive :
    List GrpcCall → ScanResponse → Reader → FileSystem → Exec (Reader × FileSystem)
unfolding on_read_done on_done
receive [] last r fs = ok (r, fs)
receive (start_write response ∷ calls) last r fs =
    on_read_done true response r fs >>= λ (r', fs'). receive calls response r' fs'
receive (finish_call status ∷ calls) last r fs =
    on_read_done false last r fs >>= λ (r', fs'). receive calls last (on_done status r') fs'
