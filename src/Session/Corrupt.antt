-- ===== src/Session/Corrupt.antt =====
-- What `CImageView::deserialize_items` of gui-app/src/Ui/ImageView.cpp does with damaged bytes: a
-- length that carries the end pointer round, and a tail too short for a length.
use sane_in_the_membrane.Common.{
  ℕ, zero, suc, ◌+◌, ◌-◌, ◌^◌, ◌<◌, ◌≡◌, refl, List, [], none, arith, ltb, length, false, lt→ltb,
}
use sane_in_the_membrane.Common.Word.{add64, to_bytes, of_bytes-to_bytes, length-to_bytes}
use sane_in_the_membrane.Common.Exec.{ok, fault, stuck}
use sane_in_the_membrane.Session.Memory.{Memory, limit, load, Holds, load-word, Holds-bound}
use sane_in_the_membrane.Session.Item.{ImageItemSerialized, deserialize}
use sane_in_the_membrane.Session.Items.{deserialize_loop, deserialize_items}

-- The length that takes the end of the page back to its own length field.
abbrev pub backward : ℕ
backward = 2 ^ 64 - 8

deserialize-backward : (m : Memory) (p : ℕ) → p + 80 < 2 ^ 64 → deserialize m (p + 8) p ≡ ok none
unfolding deserialize
deserialize-backward m p h = ground arith

deserialize_loop-backward :
    (m : Memory) (p fuel : ℕ) (items : List ImageItemSerialized)
    → Holds m p (to_bytes 8 backward)
    → p + 80 < 2 ^ 64
    → deserialize_loop fuel m p items ≡ stuck
unfolding deserialize_loop
deserialize_loop-backward m p zero items h small = refl
deserialize_loop-backward m p (suc fuel) items h small = simp (
  lt→ltb p (limit m) (omega (arith, Holds-bound _ h, length-to_bytes 8 backward)),
  load-word backward h,
  of_bytes-to_bytes backward (omega arith),
  forward,
  back,
  beyond,
  deserialize-backward m p small,
  deserialize_loop-backward m p fuel items h small,
)
  where
    forward : add64 p 8 ≡ p + 8
    forward = omega arith

    back : add64 (p + 8) backward ≡ p
    back = omega arith

    beyond : ltb (limit m) p ≡ false
    beyond = ground (arith, Holds-bound _ h)

-- A session whose first length is 2 ^ 64 - 8 is never read to its end: the loop comes back to the
-- same address in every round, so it uses up any number of rounds.
pub deserialize_items-backward :
    (m : Memory) (fuel : ℕ)
    → Holds m m.base (to_bytes 8 backward)
    → m.base + 80 < 2 ^ 64
    → deserialize_items fuel m ≡ stuck
unfolding deserialize_items
deserialize_items-backward m fuel h small = deserialize_loop-backward m m.base fuel [] h small

-- A session of one to seven bytes is read outside its vector.
pub deserialize_items-short :
    (m : Memory) (fuel : ℕ)
    → 0 < length m.bytes
    → length m.bytes < 8
    → deserialize_items (suc fuel) m ≡ fault
unfolding deserialize_items deserialize_loop load
deserialize_items-short m fuel some_bytes few = ground arith
