-- ===== src/Scan/Deliver.antt =====
-- A whole scan as the client sees it: the writes of the reactor of
-- server/src/Reactors/ScanResponseReactor.cpp put together.
use Prim.Native.String.{String}
use sane_in_the_membrane.Common.{
  ℕ, zero, suc, ◌+◌, ◌<◌, ◌≡◌, refl, sym, ap, ◌∙◌, true, false, List, [], ◌∷◌, ◌++◌, Option, none,
  some, length, append_assoc, append-nil, arith, All, All-append,
}
use sane_in_the_membrane.Common.Exec.{Exec, ok, ◌>>=◌}
use sane_in_the_membrane.Sane.Backend.{Backend}
use sane_in_the_membrane.Sane.Device.{SaneDevice, buffer_size}
use sane_in_the_membrane.Scan.{
  Reactor, ScanResponse, GrpcCall, GrpcStatus, start_write, finish_call, Scan, grpc_ok, packet_size,
  write_response, finish, reset_response, next_packet, on_write_done,
}
use sane_in_the_membrane.Scan.Stream.{
  Yields, IsReading, Packet, full, last, scan_of, read_loop-Packet,
}

abbrev pub bytes_of : Option (List ℕ) → List ℕ
bytes_of none = []
bytes_of (some bs) = bs

-- The image bytes that a list of calls sends, in order.
abbrev pub sent : List GrpcCall → List ℕ
sent [] = []
sent (start_write r ∷ calls) = bytes_of r.raw_bytes ++ sent calls
sent (finish_call s ∷ calls) = sent calls

-- The statuses that reach gRPC.
abbrev pub finishes : List GrpcCall → List GrpcStatus
finishes [] = []
finishes (start_write r ∷ calls) = finishes calls
finishes (finish_call s ∷ calls) = s ∷ finishes calls

-- No response carries more than a packet and one read.
abbrev pub IsBounded : GrpcCall → Type 0
IsBounded (start_write r) = length (bytes_of r.raw_bytes) < packet_size + buffer_size
IsBounded (finish_call s) = Unit {0}

sent-append : (xs ys : List GrpcCall) → sent (xs ++ ys) ≡ sent xs ++ sent ys
sent-append [] ys = refl
sent-append (start_write r ∷ xs) ys =
    ap (◌++◌ (bytes_of r.raw_bytes)) (sent-append xs ys)
    ∙ sym (append_assoc (bytes_of r.raw_bytes) (sent xs) (sent ys))
sent-append (finish_call s ∷ xs) ys = sent-append xs ys

finishes-append : (xs ys : List GrpcCall) → finishes (xs ++ ys) ≡ finishes xs ++ finishes ys
finishes-append [] ys = refl
finishes-append (start_write r ∷ xs) ys = finishes-append xs ys
finishes-append (finish_call s ∷ xs) ys = ap (◌∷◌ s) (finishes-append xs ys)

sent-call :
    (xs : List GrpcCall) (r : ScanResponse)
    → sent (xs ++ (start_write r ∷ [])) ≡ sent xs ++ bytes_of r.raw_bytes
sent-call xs r =
    sent-append xs (start_write r ∷ []) ∙ ap (◌++◌ (sent xs)) (append-nil (bytes_of r.raw_bytes))

-- What a list of calls comes to.
pub record Outcome (before calls : List GrpcCall) (bs : List ℕ) : Type 0 where
  pub sends : sent calls ≡ sent before ++ bs
  pub ends : finishes calls ≡ finishes before ++ (grpc_ok ∷ [])
  pub bounded : All IsBounded calls
  pub extends : (more : List GrpcCall) × (calls ≡ before ++ more)

-- The reactor after one packet was written from a cleared response.
abbrev pub wrote : String → List ℕ → List ℕ → Reactor → Reactor
wrote name packet buffer r =
    write_response (record (reset_response name r) { byte_data = packet; buffer = buffer })

abbrev pub packet_response : String → List ℕ → ScanResponse
packet_response name packet = record {
  scanner_name = name;
  raw_bytes = some packet;
  parameters = none;
}

wrote-calls :
    (name : String) (packet buffer : List ℕ) (r : Reactor)
    → (wrote name packet buffer r).calls
      ≡ r.calls ++ (start_write (packet_response name packet) ∷ [])
unfolding write_response reset_response
wrote-calls name packet buffer r = refl

wrote-finished :
    (name : String) (packet buffer : List ℕ) (r : Reactor)
    → (wrote name packet buffer r).finished ≡ r.finished
unfolding write_response reset_response
wrote-finished name packet buffer r = refl

finish-live :
    (r : Reactor)
    → r.finished ≡ false
    → ((finish grpc_ok r).finished ≡ true)
      × ((finish grpc_ok r).calls ≡ r.calls ++ (finish_call grpc_ok ∷ []))
unfolding finish
finish-live r live = (rw live refl, rw live refl)

Outcome-full :
    {before calls calls' : List GrpcCall} {bs rest : List ℕ} (name : String) (packet : List ℕ)
    → calls ≡ before ++ (start_write (packet_response name packet) ∷ [])
    → bs ≡ packet ++ rest
    → Outcome calls calls' rest
    → Outcome before calls' bs
Outcome-full {before} {rest = rest} name packet e split o =
    let (more, longer) = o.extends in
    record {
      sends =
          o.sends
          ∙ ap (λ l. l ++ rest) (ap sent e ∙ sent-call before (packet_response name packet))
          ∙ append_assoc (sent before) packet rest
          ∙ ap (◌++◌ (sent before)) (sym split);
      ends =
          o.ends
          ∙ ap (λ l. l ++ (grpc_ok ∷ []))
              (ap finishes e ∙ finishes-append before _ ∙ append-nil (finishes before));
      bounded = o.bounded;
      extends = (
        start_write (packet_response name packet) ∷ more,
        longer
            ∙ ap (λ l. l ++ more) e
            ∙ append_assoc before (start_write (packet_response name packet) ∷ []) more,
      );
    }

Outcome-last :
    {before calls : List GrpcCall} (name : String) (bs : List ℕ)
    → calls ≡ (before ++ (start_write (packet_response name bs) ∷ [])) ++ (finish_call grpc_ok ∷ [])
    → length bs < packet_size
    → All IsBounded before
    → Outcome before calls bs
Outcome-last {before} name bs e small bound =
    let write : List GrpcCall = start_write (packet_response name bs) ∷ [] in
    let done : List GrpcCall = finish_call grpc_ok ∷ [] in
    record {
      sends =
          ap sent e
          ∙ sent-append (before ++ write) done
          ∙ append-nil (sent (before ++ write))
          ∙ sent-call before (packet_response name bs);
      ends =
          ap finishes e
          ∙ finishes-append (before ++ write) done
          ∙ ap (λ l. l ++ (grpc_ok ∷ []))
              (finishes-append before write ∙ append-nil (finishes before));
      bounded = rw e (
          All-append IsBounded (before ++ write) done
            (All-append IsBounded before write bound (omega arith, tt)) (tt, tt));
      extends = (write ++ done, e ∙ append_assoc before write done);
    }

module _ (b : Backend) where
  open b use {World}

  -- gRPC reports `k` writes in turn, each of them done.
  unfoldable pub writes_done : ℕ → ℕ → Scan b → Exec (Scan b)
  writes_done fuel zero s = ok s
  writes_done fuel (suc k) s = on_write_done b fuel true s >>= writes_done fuel k

  writes_done-finished :
      (fuel k : ℕ) (s : Scan b) → s.reactor.finished ≡ true → writes_done fuel k s ≡ ok s
  unfolding writes_done on_write_done
  writes_done-finished fuel zero s h = refl
  writes_done-finished fuel (suc k) s h = simp h (writes_done-finished fuel k s h)

  pub on_write_done-next :
      (fuel : ℕ) (s : Scan b)
      → s.reactor.finished ≡ false
      → on_write_done b fuel true s ≡ next_packet b fuel s
  unfolding on_write_done
  on_write_done-next fuel s h = simp h

  -- Delivery from the state `w`: the result that `k` reports of a written packet lead to.
  abbrev pub Delivered : ℕ → ℕ → Scan b → List GrpcCall → List ℕ → World → SaneDevice → Type 0
  Delivered fuel k s before bs w_end d =
      (s' : Scan b) × (writes_done fuel k s ≡ ok s')
      × Outcome before s'.reactor.calls bs
      × (s'.reactor.finished ≡ true)
      × (s'.world ≡ w_end)
      × (s'.device ≡ d)

  abbrev Delivers : ℕ → ℕ → ℕ → World → Type 0
  Delivers h fuel k w_end =
      (n : ℕ) (bs : List ℕ) (w : World) (r : Reactor) (d : SaneDevice)
      → Yields b h n w bs w_end
      → IsReading b h d
      → r.finished ≡ false
      → All IsBounded r.calls
      → n < fuel
      → n < k
      → Delivered fuel k (scan_of b r d w) r.calls bs w_end d

  after-Packet :
      {h n : ℕ} {bs : List ℕ} {w w_end : World} (fuel k : ℕ) (name : String) (r : Reactor)
      (d : SaneDevice) (s' : Scan b)
      → Packet b h n [] bs w_end (scan_of b (reset_response name r) d w) s'
      → IsReading b h d
      → r.finished ≡ false
      → All IsBounded r.calls
      → n < fuel
      → n < suc k
      → Delivers h fuel k w_end
      → Delivered fuel k s' r.calls bs w_end d
  after-Packet fuel k name r d s' (full packet rest m e lo hi less y (buffer, er) same) i live bound
        hf hk rec =
      let e_calls = ap (λ (x : Reactor). x.calls) er ∙ wrote-calls name packet buffer r in
      let (s'', run, o, fin, we, de) =
        rec m rest s'.world s'.reactor s'.device y (rw same i)
          (ap (λ (x : Reactor). x.finished) er ∙ wrote-finished name packet buffer r ∙ live)
          (rw e_calls (All-append IsBounded r.calls _ bound (hi, tt))) (omega arith)
          (omega arith) in
      (s'', run, Outcome-full name packet e_calls e o, fin, we, de ∙ same)
  after-Packet {bs = bs} fuel k name r d s' (last r' small (buffer, er) e ew same) i live bound hf
        hk rec =
      let live' = ap (λ (x : Reactor). x.finished) er ∙ wrote-finished name bs buffer r ∙ live in
      let (fin, e_finish) = finish-live r' live' in
      let e_calls = ap (λ (x : Reactor). x.calls) er ∙ wrote-calls name bs buffer r in
      let finished = ap (λ (x : Reactor). x.finished) e ∙ fin in
      (
        s',
        writes_done-finished fuel k s' finished,
        Outcome-last name bs
            (ap (λ (x : Reactor). x.calls) e
              ∙ e_finish
              ∙ ap (λ l. l ++ (finish_call grpc_ok ∷ [])) e_calls)
            small bound,
        finished,
        ew,
        same,
      )

  deliver : {h : ℕ} {w_end : World} (fuel k : ℕ) → Delivers h fuel k w_end
  unfolding writes_done next_packet reset_response
  deliver fuel zero n bs w r d y i live bound hf hk = absurd (omega arith)
  deliver fuel (suc k) n bs w r d y i live bound hf hk =
      let name = d.device_name in
      let (s', e', p) = read_loop-Packet b y fuel (reset_response name r) d i (omega arith) hf in
      rw (on_write_done-next fuel (scan_of b r d w) live, e')
        (after-Packet fuel k name r d s' p i live bound hf hk (deliver fuel k))

  -- Once a device is being read, every byte of its data is sent, in order, in bounded packets, and
  -- the call is finished once, with success.
  pub writes_done-Outcome :
      {h n : ℕ} {bs : List ℕ} {w w_end : World} (k fuel : ℕ) (r : Reactor) (d : SaneDevice)
      → Yields b h n w bs w_end
      → IsReading b h d
      → r.finished ≡ false
      → All IsBounded r.calls
      → n < fuel
      → n < k
      → Delivered fuel k (scan_of b r d w) r.calls bs w_end d
  writes_done-Outcome k fuel r d y i live bound hf hk =
      deliver fuel k _ _ _ r d y i live bound hf hk
