-- ===== src/UniqueId.antt =====
-- Ids for files and pages: `CUniqueIdGenerator` of
-- gui-app/src/Service/UniqueIdGenerator.{hpp,cpp}. The clock and the hash of the thread are
-- arguments. A masked word is a remainder and a shifted one a product, modulo 2 ^ 64.
pub mod Distinct
mod Runs
use sane_in_the_membrane.Common.{ℕ, ◌+◌, ◌*◌, ◌%◌, ◌^◌, List, [], ◌∷◌, ◌==◌, if◌then◌else◌}
use Prim.Native.Nat.{bit_or}

-- The two variables of a thread.
pub record Generator : Type 0 where
  pub sequence_number : ℕ
  pub thread_hash : ℕ

abbrev pub new_generator : Generator
new_generator = record { sequence_number = 0; thread_hash = 0 }

abbrev pub time_bits : ℕ
time_bits = 44

abbrev pub seq_bits : ℕ
seq_bits = 12

abbrev pub thread_bits : ℕ
thread_bits = 8

-- `(word & MASK) << SHIFT`.
abbrev pub field : ℕ → ℕ → ℕ → ℕ
field word bits shift = ((word % 2 ^ bits) * 2 ^ shift) % 2 ^ 64

-- `hash` is the hash of the thread, which is taken again as long as it is 0.
abbrev pub thread_hash_of : ℕ → Generator → ℕ
thread_hash_of hash g = if g.thread_hash == 0 then hash else g.thread_hash

unfoldable pub id : ℕ → ℕ → Generator → ℕ × Generator
id time_now hash g = (
  bit_or
      (bit_or (bit_or 0 (field time_now time_bits (thread_bits + seq_bits)))
        (field g.sequence_number seq_bits thread_bits))
      (field (thread_hash_of hash g) thread_bits 0),
  record {
    sequence_number = (g.sequence_number + 1) % 2 ^ 64;
    thread_hash = thread_hash_of hash g;
  },
)

-- The ids that a thread takes at the times of a list.
unfoldable pub ids : List ℕ → ℕ → Generator → List ℕ
unfolding id
ids [] hash g = []
ids (time_now ∷ times) hash g = let (new_id, g') = id time_now hash g in new_id ∷ ids times hash g'
