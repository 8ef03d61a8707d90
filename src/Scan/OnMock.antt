-- ===== src/Scan/OnMock.antt =====
-- The reactor of server/src/Reactors/ScanResponseReactor.cpp over the mock library of
-- sane_wrapper/mock/SaneMock.cpp, as tests/src/server/scanner_service.cpp runs them together.
use mathlib.Core.Path.{subst}
use Prim.Native.String.{String}
use text.Mathlib.Text.{◌==◌ as str_eq}
use sane_in_the_membrane.Common.{
  ℕ, zero, suc, ◌+◌, ◌-◌, ◌≤◌, ◌<◌, ◌≡◌, refl, ap, ◌∙◌, true, false, [], ◌∷◌, ◌++◌, some, arith,
  replicate, length-replicate, All,
}
use sane_in_the_membrane.Common.Exec.{ok, ◌>>=◌}
use sane_in_the_membrane.Sane.Device.{SaneDevice, buffer_size}
use sane_in_the_membrane.Sane.Mock.{
  MockHandle, MockWorld, mock_backend, get_handle, with_handle, get_or_create_handle, mock_open,
  mock_start, mock_get_parameters,
}
use sane_in_the_membrane.Sane.Mock.Handles.{
  Left, mock_read-end, mock_read-more, read_size, after_read, get_handle-update_handle,
}
use sane_in_the_membrane.Scan.{Scan, grpc_ok, start_scan, new_reactor}
use sane_in_the_membrane.Scan.Stream.{Yields, ends, more, scan_of}
use sane_in_the_membrane.Scan.Deliver.{writes_done, sent, finishes, IsBounded}
use sane_in_the_membrane.Scan.Complete.{Starts, scan_complete}

replicate-append : (a b : ℕ) (x : ℕ) → replicate a x ++ replicate b x ≡ replicate (a + b) x
replicate-append zero b x = let e : b ≡ zero + b = omega arith in ap (λ n. replicate n x) e
replicate-append (suc a) b x =
    let e : suc (a + b) ≡ suc a + b = omega arith in
    ap (◌∷◌ x) (replicate-append a b x) ∙ ap (λ n. replicate n x) e

abbrev MockYields : ℕ → ℕ → MockWorld → Type 0
MockYields h n w =
    (k : ℕ) × (w' : MockWorld) × (k ≤ n) × Yields mock_backend h k w (replicate n 1) w'

one_more :
    (h n : ℕ) (w : MockWorld)
    → Left h n w
    → 0 < n
    → MockYields h (n - read_size n) (after_read h n w)
    → MockYields h n w
one_more h n w l pos (k, w', less, y) = (
  suc k,
  w',
  ground arith,
  subst (λ bs. Yields mock_backend h (suc k) w bs w')
      (replicate-append (read_size n) (n - read_size n) 1 ∙ ap (λ m. replicate m 1) whole)
      (more (replicate (read_size n) 1) (mock_read-more h n w l pos).0
        (rw (length-replicate {A = ℕ} (read_size n) 1) small) y),
)
  where
    whole : read_size n + (n - read_size n) ≡ n
    whole = ground arith

    small : read_size n ≤ buffer_size
    small = ground arith

mock-Yields : (fuel h n : ℕ) (w : MockWorld) → n ≤ fuel → Left h n w → MockYields h n w
mock-Yields fuel h zero w f l = (0, w, omega arith, ends (mock_read-end h w l))
mock-Yields zero h (suc n) w f l = absurd (omega arith)
mock-Yields (suc fuel) h (suc n) w f l = one_more h (suc n) w l (omega arith) (
    mock-Yields fuel h (suc n - read_size (suc n)) (after_read h (suc n) w) (ground arith)
      (mock_read-more h (suc n) w l (omega arith)).1)

-- A device that the mock knows, with `n` bytes left at its handle.
pub record IsKnown (w : MockWorld) (name : String) (h n : ℕ) : Type 0 where
  pub named : str_eq name "" ≡ false
  pub with_it : MockWorld
  pub mock_handle : MockHandle
  pub resolves : get_or_create_handle w name ≡ some (h, with_it)
  pub found : get_handle with_it.handles h ≡ some mock_handle
  pub left : mock_handle.bytes_read + n ≡ mock_handle.max_read_length

module _ {w : MockWorld} {h n : ℕ} (d : SaneDevice) (known : IsKnown w d.device_name h n) where
  abbrev opened_world : MockWorld
  opened_world = with_handle known.with_it h (λ m. record m { is_open = true })

  abbrev started_world : MockWorld
  started_world =
      with_handle opened_world h (λ m. record m { is_started = true; is_cancelled = false })

  opened_found :
      get_handle opened_world.handles h ≡ some (record known.mock_handle { is_open = true })
  opened_found = get_handle-update_handle known.with_it.handles h _ known.found

  started_found :
      get_handle started_world.handles h
      ≡ some (record known.mock_handle { is_open = true; is_started = true; is_cancelled = false })
  started_found = get_handle-update_handle opened_world.handles h _ opened_found

  mock-Starts : Starts mock_backend d w h known.mock_handle.parameters started_world
  unfolding mock_open mock_start mock_get_parameters
  mock-Starts = record {
    mid = opened_world;
    opens = simp (known.named, known.resolves);
    starts = simp opened_found;
    tells = simp started_found;
  }

  -- A scan of a known mock device sends exactly the bytes that its handle has left, each a one, and
  -- finishes once, with success: no assertion of the mock fails on the way.
  pub scan_on_mock :
      (fuel k : ℕ)
      → n < fuel
      → n < k
      → (s : Scan mock_backend) × ((start_scan mock_backend (scan_of mock_backend new_reactor d w)
            >>= writes_done mock_backend fuel k)
          ≡ ok s)
        × (sent s.reactor.calls ≡ replicate n 1)
        × (finishes s.reactor.calls ≡ grpc_ok ∷ [])
        × All IsBounded s.reactor.calls
  scan_on_mock fuel k hf hk =
      let (reads, w', few, y) = mock-Yields n h n started_world (omega arith) (
        record known.mock_handle { is_open = true; is_started = true; is_cancelled = false },
        started_found,
        refl,
        known.left,
      ) in
      let (s, run, sends, finished, bounded, _, _, _, _) =
        scan_complete mock_backend d w fuel k mock-Starts y (omega arith) (omega arith) in
      (s, run, sends, finished, bounded)
