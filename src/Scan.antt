-- ===== src/Scan.antt =====
-- The server's side of one scan: `CScanResponseReactor` of
-- server/src/Reactors/ScanResponseReactor.{hpp,cpp}. The calls of gRPC that the reactor makes are
-- recorded in order; gRPC calls `on_write_done`, `on_cancel` and `on_done`.
pub mod Stream
pub mod Deliver
pub mod Complete
pub mod OnMock
pub mod Sharing
pub mod Guards
pub mod Sample
mod Runs
use Prim.Native.String.{String}
use sane_in_the_membrane.Common.{
  ℕ, zero, suc, ◌+◌, ◌≡◌, Bool, true, false, not, ◌&&◌, ◌||◌, List, [], ◌∷◌, ◌++◌, Option, none,
  some, ltb, leb, if◌then◌else◌, length,
}
use sane_in_the_membrane.Common.Exec.{Exec, ok, fault, stuck, ◌>>=◌}
use sane_in_the_membrane.Sane.Status.{SaneStatus, good, eof, is_ok, status_eq}
use sane_in_the_membrane.Sane.Backend.{SaneParameters, Backend}
use sane_in_the_membrane.Sane.Device.{
  SaneDevice, open_device, close_device, start_device, refresh_parameters, read_into, cancel_device,
}

-- `ScanResponse` of proto/scanner/v1/scanner.proto.
pub record ScanResponse : Type 0 where
  pub scanner_name : String
  pub raw_bytes : Option (List ℕ)
  pub parameters : Option SaneParameters

-- `grpc::Status`, its message left out where it is fixed by the code.
pub data GrpcStatus : Type 0 where
  grpc_ok : GrpcStatus
  cancelled aborted : SaneStatus → GrpcStatus
  device_not_found write_failed : GrpcStatus

pub data GrpcCall : Type 0 where
  start_write : ScanResponse → GrpcCall
  finish_call : GrpcStatus → GrpcCall

-- `m_buffer` is the stored prefix, `read_len` bytes long.
pub record Reactor : Type 0 where
  pub response : ScanResponse
  pub byte_data : List ℕ
  pub buffer : List ℕ
  pub finished : Bool
  pub calls : List GrpcCall

-- The size from which a packet is written.
abbrev pub packet_size : ℕ
packet_size = 10240

abbrev pub call : GrpcCall → Reactor → Reactor
call c r = record r { calls = r.calls ++ (c ∷ []) }

-- Only the first `Finish` reaches gRPC.
unfoldable pub finish : GrpcStatus → Reactor → Reactor
finish status r = if r.finished then r else call (finish_call status) (record r { finished = true })

unfoldable pub reset_response : String → Reactor → Reactor
reset_response name r = record r {
  response = record { scanner_name = name; raw_bytes = none; parameters = none };
  byte_data = [];
}

unfoldable pub write_response : Reactor → Reactor
write_response r =
    let response = record r.response { raw_bytes = some r.byte_data } in
    call (start_write response) (record r { response = response })

unfoldable pub write_sane_parameters : SaneParameters → Reactor → Reactor
write_sane_parameters p r = record r { response = record r.response { parameters = some p } }

-- `m_byte_data.insert` of what was read, on success or at the end of the data.
abbrev pub take_in : SaneStatus → List ℕ → Reactor → Reactor
take_in status buffer r =
    if (is_ok status || status_eq status eof) && ltb 0 (length buffer)
    then record r { buffer = buffer; byte_data = r.byte_data ++ buffer }
    else record r { buffer = buffer }

-- What a loop round does after a read that was taken in and did not fill a packet; `none` goes on.
abbrev pub stop_on : SaneStatus → Reactor → Option Reactor
stop_on status r =
    if is_ok status
    then none
    else if status_eq status eof
    then some (finish grpc_ok (write_response r))
    else some (finish (aborted status) r)

module _ (b : Backend) where
  open b use {World}

  pub record Scan : Type 0 where
    pub reactor : Reactor
    pub device : SaneDevice
    pub world : World

  -- The loop of `next_packet`; the fuel counts its reads.
  unfoldable pub read_loop : ℕ → Scan → Exec Scan
  read_loop zero s = stuck
  read_loop (suc fuel) s = read_into b s.device s.reactor.buffer s.world >>= λ (status, buffer, w).
      let r = take_in status buffer s.reactor in
      let next = read_loop fuel (record s { reactor = r; world = w }) in
      let unfilled = elim (stop_on status r) as (λ _. Exec Scan) [
        | some r' ↦ ok (record s { reactor = r'; world = w })
        | none ↦ next
      ] in
      if leb packet_size (length r.byte_data)
      then ok (record s { reactor = write_response r; world = w })
      else unfilled

  unfoldable pub next_packet : ℕ → Scan → Exec Scan
  unfolding read_loop
  next_packet fuel s =
      read_loop fuel (record s { reactor = reset_response s.device.device_name s.reactor })

  unfoldable pub on_write_done : ℕ → Bool → Scan → Exec Scan
  on_write_done fuel written s =
      if written && not s.reactor.finished
      then next_packet fuel s
      else if not written && not s.reactor.finished
      then ok (record s { reactor = finish write_failed s.reactor })
      else ok s

  started_scan : Scan → SaneStatus × SaneDevice × World → Scan
  started_scan s (status, d, w) =
      if not (is_ok status)
      then record s { reactor = finish (cancelled status) s.reactor; device = d; world = w }
      else (let (status', d') = refresh_parameters b d w in
          if not (is_ok status')
          then record s { reactor = finish (cancelled status') s.reactor; device = d'; world = w }
          else (let r = write_sane_parameters d'.parameters s.reactor in
              record s { reactor = call (start_write r.response) r; device = d'; world = w }))

  -- The constructor: it opens and starts the device and writes the parameters.
  unfoldable pub start_scan : Scan → Exec Scan
  unfolding started_scan
  start_scan s =
      let r = reset_response s.device.device_name s.reactor in
      open_device b s.device s.world >>= λ (status, d, w).
      let s₁ = record s { reactor = r; device = d; world = w } in
      if not (is_ok status)
      then ok (record s₁ { reactor = finish (cancelled status) r })
      else ok (started_scan s₁ (start_device b d w))

  unfoldable pub on_cancel : Scan → Scan
  on_cancel s = let (d, w) = cancel_device b s.device s.world in record s { device = d; world = w }

  -- gRPC is done with the call; the reactor deletes itself.
  unfoldable pub on_done : Scan → Exec (SaneDevice × World)
  on_done s = close_device b s.device s.world

abbrev pub new_reactor : Reactor
new_reactor = record {
  response = record { scanner_name = ""; raw_bytes = none; parameters = none };
  byte_data = [];
  buffer = [];
  finished = false;
  calls = [];
}

-- `CEmptyScanResponseReactor`: no device has the name asked for.
unfoldable pub empty_reactor : Reactor
unfolding finish
empty_reactor = finish device_not_found new_reactor
