-- ===== src/Session/Memory.antt =====
-- A byte vector at its address, as the raw pointers of gui-app/src/Ui/ImageView.cpp see it.
use sane_in_the_membrane.Common.{
  ℕ, ◌+◌, ◌-◌, ◌^◌, ◌≤◌, ◌<◌, ◌≡◌, refl, sym, ap, ◌∙◌, List, [], ◌++◌, ◌&&◌, arith, append-nil,
  append_assoc, leb, if◌then◌else◌, length, length-append, take, drop, take-length-append,
  drop-length-append, le→leb,
}
use sane_in_the_membrane.Common.Word.{to_bytes, length-to_bytes}
use sane_in_the_membrane.Common.Exec.{Exec, ok, fault}

pub record Memory : Type 0 where
  pub base : ℕ
  pub bytes : List ℕ

abbrev pub limit : Memory → ℕ
limit m = m.base + length m.bytes

-- A read of `n` bytes at the address `p`; a read that leaves the vector is a fault.
unfoldable pub load : Memory → ℕ → ℕ → Exec (List ℕ)
load m p n =
    if leb m.base p && leb (p + n) (limit m) then ok (take n (drop (p - m.base) m.bytes)) else fault

-- The vector ends below the last address.
abbrev pub Fits : Memory → Type 0
Fits m = limit m < 2 ^ 64

-- At the address `p` the vector holds `bs`.
pub record Holds (m : Memory) (p : ℕ) (bs : List ℕ) : Type 0 where
  pub before : List ℕ
  pub after : List ℕ
  pub split : m.bytes ≡ before ++ (bs ++ after)
  pub address : p ≡ m.base + length before

pub Holds-whole : (m : Memory) → Holds m m.base m.bytes
Holds-whole m = record {
  before = [];
  after = [];
  split = sym (append-nil m.bytes);
  address = omega arith;
}

pub Holds-left : {m : Memory} {p : ℕ} (xs ys : List ℕ) → Holds m p (xs ++ ys) → Holds m p xs
Holds-left xs ys h = record {
  before = h.before;
  after = ys ++ h.after;
  split = h.split ∙ ap (◌++◌ h.before) (append_assoc xs ys h.after);
  address = h.address;
}

pub Holds-right :
    {m : Memory} {p : ℕ} (xs ys : List ℕ) → Holds m p (xs ++ ys) → Holds m (p + length xs) ys
Holds-right xs ys h = record {
  before = h.before ++ xs;
  after = h.after;
  split =
      h.split
      ∙ ap (◌++◌ h.before) (append_assoc xs ys h.after)
      ∙ sym (append_assoc h.before xs (ys ++ h.after));
  address = omega (arith, h.address, length-append h.before xs);
}

-- What the vector holds lies inside it.
pub Holds-bound : {m : Memory} {p : ℕ} (bs : List ℕ) → Holds m p bs → p + length bs ≤ limit m
Holds-bound bs h =
    omega
      (arith, ap length h.split, length-append h.before (bs ++ h.after), length-append bs h.after)

pub Holds-base : {m : Memory} {p : ℕ} (bs : List ℕ) → Holds m p bs → m.base ≤ p
Holds-base bs h = omega (arith, h.address)

-- What the vector holds is what a read of that many bytes returns.
pub load-Holds : {m : Memory} {p : ℕ} (bs : List ℕ) → Holds m p bs → load m p (length bs) ≡ ok bs
unfolding load
load-Holds {m} {p} bs h =
    rw
      (
        le→leb _ _ (Holds-base bs h),
        le→leb _ _ (Holds-bound bs h),
        offset,
        h.split,
        drop-length-append,
        take-length-append,
      )
      refl
  where
    offset : p - m.base ≡ length h.before
    offset = omega (arith, h.address)

-- A word of the vector reads as the eight bytes that hold it.
pub load-word :
    {m : Memory} {p : ℕ} (x : ℕ) → Holds m p (to_bytes 8 x) → load m p 8 ≡ ok (to_bytes 8 x)
load-word x h = rw (length-to_bytes 8 x) at (load-Holds (to_bytes 8 x) h)
