-- ===== src/Sane/Mock/Handles.antt =====
-- The handle table of the mock, sane_wrapper/mock/SaneMock.cpp: what a write through a handle leaves.
use mathlib.Core.Option.{some-injective}
use sane_in_the_membrane.Common.{
  ℕ, zero, suc, ◌+◌, ◌-◌, ◌<◌, ◌≡◌, ap, true, false, List, [], ◌∷◌, some, if◌then◌else◌, get_elem?,
  arith, ◌==◌, replicate, ltb,
}
use sane_in_the_membrane.Common.Exec.{ok}
use sane_in_the_membrane.Sane.Status.{good, eof}
use sane_in_the_membrane.Sane.Device.{buffer_size}
use sane_in_the_membrane.Sane.Mock.{
  MockHandle, MockWorld, get_handle, update_index, update_handle, with_handle,
  get_read_bytes_capacity, set_bytes_read, mock_read,
}

get_elem?-update_index :
    (handles : List MockHandle) (i : ℕ) (f : MockHandle → MockHandle) {m : MockHandle}
    → get_elem? handles i ≡ some m
    → get_elem? (update_index handles i f) i ≡ some (f m)
unfolding update_index
get_elem?-update_index [] i f e = cc
get_elem?-update_index (x ∷ handles) zero f e = ap some (ap f (some-injective _ _ e))
get_elem?-update_index (x ∷ handles) (suc i) f e = get_elem?-update_index handles i f e

pub get_handle-update_handle :
    (handles : List MockHandle) (h : ℕ) (f : MockHandle → MockHandle) {m : MockHandle}
    → get_handle handles h ≡ some m
    → get_handle (update_handle handles h f) h ≡ some (f m)
unfolding get_handle update_handle
get_handle-update_handle handles zero f e = cc
get_handle-update_handle handles (suc i) f e = get_elem?-update_index handles i f e

-- The mock's data: as many ones as the handle has left, up to 2048 at a time.
abbrev pub Left : ℕ → ℕ → MockWorld → Type 0
Left h n w =
    (m : MockHandle) × (get_handle w.handles h ≡ some m)
    × (m.is_started ≡ true)
    × (m.bytes_read + n ≡ m.max_read_length)

pub capacity-Left :
    (m : MockHandle) (n : ℕ) → m.bytes_read + n ≡ m.max_read_length → get_read_bytes_capacity m ≡ n
unfolding get_read_bytes_capacity
capacity-Left m n e = ground arith

pub mock_read-end :
    (h : ℕ) (w : MockWorld) → Left h 0 w → mock_read w h buffer_size ≡ ok (eof, some [], w)
unfolding mock_read
mock_read-end h w (m, found, started, left) = simp (found, started, capacity-Left m 0 left)

-- How much one read takes of `n` bytes.
abbrev pub read_size : ℕ → ℕ
read_size n = if ltb n buffer_size then n else buffer_size

abbrev pub after_read : ℕ → ℕ → MockWorld → MockWorld
after_read h n w = with_handle w h (λ m. set_bytes_read (m.bytes_read + read_size n) m)

pub mock_read-more :
    (h n : ℕ) (w : MockWorld)
    → Left h n w
    → 0 < n
    → (mock_read w h buffer_size ≡ ok (good, some (replicate (read_size n) 1), after_read h n w))
      × Left h (n - read_size n) (after_read h n w)
unfolding mock_read
mock_read-more h n w (m, found, started, left) pos = (
  simp (found, started, capacity-Left m n left, nonzero),
  (
    set_bytes_read (m.bytes_read + read_size n) m,
    get_handle-update_handle w.handles h _ found,
    started,
    ground arith,
  ),
)
  where
    nonzero : (n == 0) ≡ false
    nonzero = ground arith
