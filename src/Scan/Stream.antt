-- ===== src/Scan/Stream.antt =====
-- A device's data as the reactor of server/src/Reactors/ScanResponseReactor.cpp reads it: one call
-- of `next_packet` on a stream of successful reads that ends.
use sane_in_the_membrane.Common.{
  ℕ, zero, suc, ◌+◌, ◌≤◌, ◌<◌, ◌≡◌, refl, sym, ◌∙◌, inl, inr, false, List, [], ◌∷◌, ◌++◌, some, leb,
  leb→le, lt→ltb, if◌then◌else◌, length, length-append, append_assoc, append-nil, arith, Bool-cases,
}
use sane_in_the_membrane.Common.Exec.{ok}
use sane_in_the_membrane.Sane.Status.{SaneStatus, good, eof}
use sane_in_the_membrane.Sane.Backend.{Backend}
use sane_in_the_membrane.Sane.Device.{SaneDevice, started, buffer_size, read_into}
use sane_in_the_membrane.Scan.{
  Reactor, Scan, read_loop, take_in, write_response, finish, grpc_ok, packet_size,
}

leb_false→lt : (a b : ℕ) → leb a b ≡ false → b < a
leb_false→lt a b h = ground arith

module _ (b : Backend) where
  open b use {World, sane_read}

  -- From the state `w` the handle `h` gives `bs` in `n` successful reads of at most 2048 bytes each,
  -- then the end of the data, and leaves the state `w'`.
  pub data Yields (h : ℕ) : ℕ → World → List ℕ → World → Type 0 where
    ends :
        {w w' : World} → sane_read w h buffer_size ≡ ok (eof, some [], w') → Yields h zero w [] w'
    more :
        {n : ℕ} {w w₁ w' : World} {rest : List ℕ} (chunk : List ℕ)
        → sane_read w h buffer_size ≡ ok (good, some chunk, w₁)
        → length chunk ≤ buffer_size
        → Yields h n w₁ rest w'
        → Yields h (suc n) w (chunk ++ rest) w'

  -- The device is open, started and at the handle `h`.
  abbrev pub IsReading : ℕ → SaneDevice → Type 0
  IsReading h d = (d.handle ≡ some h) × (d.current_state ≡ started)

  -- The reactor after a write of the packet, whatever is left in its buffer.
  abbrev pub Wrote : List ℕ → Reactor → Reactor → Type 0
  Wrote packet r r' =
      (buffer : List ℕ) × (r' ≡ write_response (record r { byte_data = packet; buffer = buffer }))

  -- A full packet went out and more is to come, or the last packet did and the call is finished.
  pub data Packet (h n : ℕ) (acc bs : List ℕ) (w_end : World) (s s' : Scan b) : Type 0 where
    full :
        (packet rest : List ℕ) (m : ℕ)
        → acc ++ bs ≡ packet ++ rest
        → packet_size ≤ length packet
        → length packet < packet_size + buffer_size
        → m < n
        → Yields h m s'.world rest w_end
        → Wrote packet s.reactor s'.reactor
        → s'.device ≡ s.device
        → Packet h n acc bs w_end s s'
    last :
        (r : Reactor)
        → length (acc ++ bs) < packet_size
        → Wrote (acc ++ bs) s.reactor r
        → s'.reactor ≡ finish grpc_ok r
        → s'.world ≡ w_end
        → s'.device ≡ s.device
        → Packet h n acc bs w_end s s'

  read_into-reading :
      {h : ℕ} (d : SaneDevice) (buffer chunk : List ℕ) (status : SaneStatus) (w w' : World)
      → IsReading h d
      → sane_read w h buffer_size ≡ ok (status, some chunk, w')
      → read_into b d buffer w ≡ ok (status, chunk, w')
  unfolding read_into
  read_into-reading d buffer chunk status w w' i e = simp (i.0, i.1, e)

  abbrev pub scan_of : Reactor → SaneDevice → World → Scan b
  scan_of r d w = record { reactor = r; device = d; world = w }

  abbrev pub took : List ℕ → Reactor → Reactor
  took chunk r = record r { buffer = chunk; byte_data = r.byte_data ++ chunk }

  take_in-good : (chunk : List ℕ) (r : Reactor) → take_in good chunk r ≡ took chunk r
  take_in-good [] r = λ i. record r { buffer = []; byte_data = sym (append-nil r.byte_data) i }
  take_in-good (x ∷ chunk) r = rw (lt→ltb 0 (suc (length chunk)) (omega arith)) refl

  -- A successful read goes on unless it fills the packet.
  read_loop-good :
      {h : ℕ} (fuel : ℕ) (r : Reactor) (d : SaneDevice) (chunk : List ℕ) (w w' : World)
      → IsReading h d
      → sane_read w h buffer_size ≡ ok (good, some chunk, w')
      → read_loop b (suc fuel) (scan_of r d w) ≡ (
          if leb packet_size (length (r.byte_data ++ chunk))
          then ok (scan_of (write_response (took chunk r)) d w')
          else read_loop b fuel (scan_of (took chunk r) d w'))
  unfolding read_loop
  read_loop-good fuel r d chunk w w' i e =
      simp (read_into-reading d r.buffer chunk good w w' i e, take_in-good chunk r)

  read_loop-eof :
      {h : ℕ} (fuel : ℕ) (r : Reactor) (d : SaneDevice) (w w' : World)
      → IsReading h d
      → length r.byte_data < packet_size
      → sane_read w h buffer_size ≡ ok (eof, some [], w')
      → read_loop b (suc fuel) (scan_of r d w)
        ≡ ok (scan_of (finish grpc_ok (write_response (record r { buffer = [] }))) d w')
  unfolding read_loop
  read_loop-eof fuel r d w w' i small e = simp (read_into-reading d r.buffer [] eof w w' i e, below)
    where
      below : leb packet_size (length r.byte_data) ≡ false
      below = ground arith

  add_chunk :
      {h n : ℕ} {acc rest : List ℕ} {w w₁ w_end : World} {r : Reactor} {d : SaneDevice}
      {s' : Scan b} (chunk : List ℕ)
      → Packet h n (acc ++ chunk) rest w_end (scan_of (took chunk r) d w₁) s'
      → Packet h (suc n) acc (chunk ++ rest) w_end (scan_of r d w) s'
  add_chunk {acc = acc} {rest = rest} chunk (full packet left m e lo hi less y wrote same) =
      full packet left m (sym (append_assoc acc chunk rest) ∙ e) lo hi (omega arith) y wrote same
  add_chunk {acc = acc} {rest = rest} {r = r} chunk (last r' small wrote e w d) =
      last r' (rw (← append_assoc acc chunk rest) small) (rw (← append_assoc acc chunk rest) wrote)
        e w d

  -- With a round for every read the loop ends, and with the packet that the stream is due.
  pub read_loop-Packet :
      {h n : ℕ} {bs : List ℕ} {w w_end : World} (y : Yields h n w bs w_end) (fuel : ℕ) (r : Reactor)
      (d : SaneDevice)
      → IsReading h d
      → length r.byte_data < packet_size
      → n < fuel
      → (s' : Scan b) × (read_loop b fuel (scan_of r d w) ≡ ok s')
        × Packet h n r.byte_data bs w_end (scan_of r d w) s'
  read_loop-Packet (ends e) zero r d i small f = absurd (omega arith)
  read_loop-Packet (more chunk e fits y) zero r d i small f = absurd (omega arith)
  read_loop-Packet {w = w} {w_end = w'} (ends e) (suc fuel) r d i small f = (
    _,
    read_loop-eof fuel r d w w' i small e,
    last _ (rw (append-nil r.byte_data) small)
        (
          [],
          λ j.
              write_response (record r { byte_data = sym (append-nil r.byte_data) j; buffer = [] }),
        )
        refl refl refl,
  )
  read_loop-Packet {w = w} (more {w₁ = w₁} {rest = rest} chunk e fits y) (suc fuel) r d i small f =
      elim (Bool-cases (leb packet_size (length (r.byte_data ++ chunk)))) [
        | inl yes_full ↦ (
          scan_of (write_response (took chunk r)) d w₁,
          read_loop-good fuel r d chunk w w₁ i e ∙ rw yes_full refl,
          full (r.byte_data ++ chunk) rest _ (sym (append_assoc r.byte_data chunk rest))
              (leb→le _ _ yes_full) (omega (arith, length-append r.byte_data chunk)) (omega arith) y
              (chunk, refl) refl,
        )
        | inr unfilled ↦
            let (s', e', p) =
              read_loop-Packet y fuel (took chunk r) d i (leb_false→lt _ _ unfilled)
                (omega arith) in
            (s', read_loop-good fuel r d chunk w w₁ i e ∙ rw unfilled e', add_chunk chunk p)
      ]
