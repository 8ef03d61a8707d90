-- ===== src/UniqueId/Distinct.antt =====
-- Which ids of gui-app/src/Service/UniqueIdGenerator.cpp differ.
use Prim.Native.Nat.{bit_or}
use sane_in_the_membrane.Common.{
  ℕ, ◌+◌, ◌*◌, ◌/◌, ◌%◌, ◌^◌, ◌≤◌, ◌<◌, ◌≡◌, ◌≢◌, ◌↔◌, ap, ◌∙◌, List, [], ◌∷◌, All, length, arith,
}
use sane_in_the_membrane.Common.Bits.{bit_or-add, zero-bit_or}
use sane_in_the_membrane.UniqueId.{
  Generator, time_bits, seq_bits, thread_bits, field, thread_hash_of, id, ids,
}

-- Three fields that do not overlap.
merge_fields :
    (t n h : ℕ)
    → n < 2 ^ 12
    → h < 2 ^ 8
    → bit_or (bit_or (bit_or 0 (t * 2 ^ 20)) (n * 2 ^ 8)) h ≡ t * 2 ^ 20 + n * 2 ^ 8 + h
merge_fields t n h p q =
    let upper : bit_or (bit_or 0 (t * 2 ^ 20)) (n * 2 ^ 8) ≡ (t * 2 ^ 12 + n) * 2 ^ 8 =
      ap (λ x. bit_or x (n * 2 ^ 8)) (zero-bit_or (t * 2 ^ 20))
      ∙ bit_or-add 20 t (n * 2 ^ 8) (omega arith)
      ∙ omega arith in
    ap (λ x. bit_or x h) upper ∙ bit_or-add 8 (t * 2 ^ 12 + n) h q ∙ omega arith

field-time : (t : ℕ) → field t time_bits (thread_bits + seq_bits) ≡ (t % 2 ^ 44) * 2 ^ 20
field-time t = omega arith

field-sequence : (n : ℕ) → field n seq_bits thread_bits ≡ (n % 2 ^ 12) * 2 ^ 8
field-sequence n = omega arith

field-thread : (h : ℕ) → field h thread_bits 0 ≡ h % 2 ^ 8
field-thread h = omega arith

-- No field reaches into another.
id-fields :
    (time_now hash : ℕ) (g : Generator)
    → (id time_now hash g).0
      ≡ (time_now % 2 ^ 44) * 2 ^ 20
        + (g.sequence_number % 2 ^ 12) * 2 ^ 8
        + thread_hash_of hash g % 2 ^ 8
unfolding id
id-fields time_now hash g =
    rw (field-time time_now, field-sequence g.sequence_number, field-thread (thread_hash_of hash g))
      (merge_fields (time_now % 2 ^ 44) (g.sequence_number % 2 ^ 12) (thread_hash_of hash g % 2 ^ 8)
        (omega arith) (omega arith))

pub id-IsU64 : (time_now hash : ℕ) (g : Generator) → (id time_now hash g).0 < 2 ^ 64
id-IsU64 time_now hash g = omega (arith, id-fields time_now hash g)

-- The sequence number and the thread that an id shows.
abbrev pub sequence_of : ℕ → ℕ
sequence_of x = (x / 2 ^ 8) % 2 ^ 12

sequence_of-id :
    (time_now hash : ℕ) (g : Generator)
    → sequence_of (id time_now hash g).0 ≡ g.sequence_number % 2 ^ 12
sequence_of-id time_now hash g = omega (arith, id-fields time_now hash g)

step-sequence :
    (base d time_now hash : ℕ) (g : Generator)
    → g.sequence_number % 2 ^ 12 ≡ (base + d) % 2 ^ 12
    → (id time_now hash g).1.sequence_number % 2 ^ 12 ≡ (base + (d + 1)) % 2 ^ 12
unfolding id
step-sequence base d time_now hash g e = omega arith

-- `d` ids after the one that shows `base`, with fewer than 4096 in all.
ids-ne :
    (times : List ℕ) (hash base d : ℕ) (g : Generator)
    → g.sequence_number % 2 ^ 12 ≡ (base + d) % 2 ^ 12
    → 1 ≤ d
    → d + length times ≤ 2 ^ 12
    → All (λ x. sequence_of x ≢ base % 2 ^ 12) (ids times hash g)
unfolding ids
ids-ne [] hash base d g e low high = tt
ids-ne (time_now ∷ times) hash base d g e low high = (
  λ same. absurd (omega (arith, same, sequence_of-id time_now hash g, e)),
  ids-ne times hash base (d + 1) (id time_now hash g).1 (step-sequence base d time_now hash g e)
      (omega arith) (omega arith),
)

-- Every two ids of a list differ.
abbrev pub Distinct : List ℕ → Type 0
Distinct [] = Unit
Distinct (x ∷ xs) = All (λ y. y ≢ x) xs × Distinct xs

ne_of_sequence :
    (xs : List ℕ) (x n : ℕ)
    → sequence_of x ≡ n
    → All (λ y. sequence_of y ≢ n) xs
    → All (λ y. y ≢ x) xs
ne_of_sequence [] x n e h = tt
ne_of_sequence (y ∷ xs) x n e h =
    (λ same. h.0 (ap sequence_of same ∙ e), ne_of_sequence xs x n e h.1)

-- Any 4096 ids in a row of one thread are pairwise different, whatever the clock shows.
pub ids-Distinct :
    (times : List ℕ) (hash : ℕ) (g : Generator)
    → length times ≤ 2 ^ 12
    → Distinct (ids times hash g)
unfolding ids
ids-Distinct [] hash g h = tt
ids-Distinct (time_now ∷ times) hash g h = (
  ne_of_sequence (ids times hash (id time_now hash g).1) (id time_now hash g).0
      (g.sequence_number % 2 ^ 12) (sequence_of-id time_now hash g)
      (ids-ne times hash g.sequence_number 1 (id time_now hash g).1
        (step-sequence g.sequence_number 0 time_now hash g (omega arith)) (omega arith)
        (omega arith)),
  ids-Distinct times hash (id time_now hash g).1 (omega arith),
)

-- Two ids are equal exactly if the low 44 bits of their times, the low 12 bits of their sequence
-- numbers and the low 8 bits of their threads' hashes are.
pub id-eq_iff :
    (t₁ t₂ hash₁ hash₂ : ℕ) (g₁ g₂ : Generator)
    → ((id t₁ hash₁ g₁).0 ≡ (id t₂ hash₂ g₂).0) ↔ (
        (t₁ % 2 ^ 44 ≡ t₂ % 2 ^ 44)
        × (g₁.sequence_number % 2 ^ 12 ≡ g₂.sequence_number % 2 ^ 12)
        × (thread_hash_of hash₁ g₁ % 2 ^ 8 ≡ thread_hash_of hash₂ g₂ % 2 ^ 8))
id-eq_iff t₁ t₂ hash₁ hash₂ g₁ g₂ = (
  λ e. omega (arith, e, id-fields t₁ hash₁ g₁, id-fields t₂ hash₂ g₂),
  λ h. omega (arith, h.0, h.1, h.2, id-fields t₁ hash₁ g₁, id-fields t₂ hash₂ g₂),
)
