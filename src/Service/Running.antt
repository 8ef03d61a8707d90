-- ===== src/Service/Running.antt =====
-- A refresh while a scan runs: `CSane::get_devices` of sane_wrapper/src/Sane.cpp drops its shared
-- pointers, and the reactor keeps its own.
use mathlib.Core.Option.{some-injective}
use sane_in_the_membrane.Common.{
  ℕ, ◌≡◌, refl, ap, ◌∙◌, sym, true, false, List, [], ◌∷◌, Option, none, some, ◌==◌, get_elem?,
  get_elem?-set_self, get_elem?-set_ne, get_elem?-append_left, get_elem?-length, set, arith,
  Bool-cases, inl, inr, ==_iff,
}
use sane_in_the_membrane.Common.Exec.{ok}
use sane_in_the_membrane.Sane.Backend.{Backend, RawDevice}
use sane_in_the_membrane.Sane.Device.{SaneDevice, clear_raw_device}
use sane_in_the_membrane.Service.{
  contains, clear_at, clear_all, new_devices, ScannerService, expired, refresh_devices,
}
use sane_in_the_membrane.Service.Find.{Answers, refreshed, refresh_devices-refreshed}

-- A device at its address, the same but for its raw device.
abbrev pub IsKept : SaneDevice → List SaneDevice → ℕ → Type 0
IsKept d heap a =
    (d' : SaneDevice) × (get_elem? heap a ≡ some d') × (clear_raw_device d' ≡ clear_raw_device d)

clear_one-IsKept :
    (heap : List SaneDevice) (x a : ℕ) (d e : SaneDevice)
    → get_elem? heap a ≡ some d
    → get_elem? heap x ≡ some e
    → IsKept d (set heap x (clear_raw_device e)) a
clear_one-IsKept heap x a d e hd he = elim (Bool-cases (x == a)) [
  | inl same ↦
      let x_is_a = (==_iff x a).0 same in
      let e_is_d : some e ≡ some d = sym he ∙ ap (get_elem? heap) x_is_a ∙ hd in
      (
        clear_raw_device e,
        ap (get_elem? (set heap x (clear_raw_device e))) (sym x_is_a)
            ∙ get_elem?-set_self heap x (clear_raw_device e) (get_elem?-length heap x e he),
        ap clear_raw_device (some-injective e d e_is_d),
      )
  | inr other ↦
      (d, get_elem?-set_ne heap (clear_raw_device e) (λ eq. grind (arith, eq, other)) ∙ hd, refl)
]

clear_at-IsKept :
    (heap : List SaneDevice) (x a : ℕ) (d : SaneDevice) (o : Option SaneDevice)
    → get_elem? heap a ≡ some d
    → get_elem? heap x ≡ o
    → IsKept d (clear_at heap x o) a
clear_at-IsKept heap x a d none h e = (d, h, refl)
clear_at-IsKept heap x a d (some found) h e = clear_one-IsKept heap x a d found h e

clear_all-IsKept :
    (addresses : List ℕ) (heap : List SaneDevice) (a : ℕ) (d : SaneDevice)
    → get_elem? heap a ≡ some d
    → IsKept d (clear_all addresses heap) a
unfolding clear_all
clear_all-IsKept [] heap a d h = (d, h, refl)
clear_all-IsKept (x ∷ addresses) heap a d h =
    let (d₁, h₁, k₁) = clear_at-IsKept heap x a d (get_elem? heap x) h refl in
    let (d₂, h₂, k₂) = clear_all-IsKept addresses (clear_at heap x (get_elem? heap x)) a d₁ h₁ in
    (d₂, h₂, k₂ ∙ k₁)

module _ (b : Backend) where
  open b use {World}

  -- The device of a running scan outlives a refresh: its handle, state and data stay as they are, it
  -- loses its description at most, and it is not freed.
  pub refresh_devices-IsKept :
      (s : ScannerService b) (now : ℕ) (raws : List RawDevice) (w : World) (a : ℕ) (d : SaneDevice)
      → Answers b s now raws w
      → contains s.running a ≡ true
      → get_elem? s.heap a ≡ some d
      → (s' : ScannerService b) × (refresh_devices b now s ≡ ok s')
        × IsKept d s'.heap a
        × (expired b s' a ≡ false)
  refresh_devices-IsKept s now raws w a d answers held h =
      let (d', h', kept) = clear_all-IsKept s.devices s.heap a d h in
      (
        refreshed b s raws w now,
        refresh_devices-refreshed b s now raws w answers,
        (d', get_elem?-append_left (clear_all s.devices s.heap) (new_devices raws) a d' h', kept),
        alive_held,
      )
    where
      alive_held : expired b (refreshed b s raws w now) a ≡ false
      alive_held = elim (Bool-cases (contains (refreshed b s raws w now).devices a)) [
        | inl e ↦ rw e refl
        | inr e ↦ rw (e, held) refl
      ]
