-- ===== src/Service.antt =====
-- The scanner service of the server: `CSane` of sane_wrapper/src/Sane.cpp, and `CScannerService` and
-- `CScannerServiceImpl` of server/src/Service/ScannerService.{hpp,cpp}. A device is its address in
-- `heap`; it lives while `CSane` or a running scan holds a shared pointer to it.

pub mod Find
pub mod Running
mod Runs
use Prim.Native.String.{String}
use text.Mathlib.Text.{◌==◌ as str_eq}
use sane_in_the_membrane.Common.{
  ℕ, zero, suc, ◌+◌, Bool, true, false, not, List, [], ◌∷◌, ◌++◌, Option, none, some, ltb, ◌==◌,
  ◌||◌, if◌then◌else◌, length, get_elem?, set,
}
use sane_in_the_membrane.Common.Exec.{Exec, ok, ◌>>=◌}
use sane_in_the_membrane.Sane.Status.{SaneStatus, is_ok}
use sane_in_the_membrane.Sane.Backend.{Backend, RawDevice}
use sane_in_the_membrane.Sane.Device.{SaneDevice, new_device, clear_raw_device}

abbrev pub contains : List ℕ → ℕ → Bool
contains [] a = false
contains (b ∷ bs) a = (b == a) || contains bs a

abbrev pub clear_at : List SaneDevice → ℕ → Option SaneDevice → List SaneDevice
clear_at heap a none = heap
clear_at heap a (some d) = set heap a (clear_raw_device d)

-- `clear_raw_device` on each device of a list.
unfoldable pub clear_all : List ℕ → List SaneDevice → List SaneDevice
clear_all [] heap = heap
clear_all (a ∷ addresses) heap = clear_all addresses (clear_at heap a (get_elem? heap a))

-- The addresses of `raws` when they are allocated from `next` on.
abbrev pub addresses_from : ℕ → List RawDevice → List ℕ
addresses_from next [] = []
addresses_from next (raw ∷ raws) = next ∷ addresses_from (suc next) raws

abbrev pub new_devices : List RawDevice → List SaneDevice
new_devices [] = []
new_devices (raw ∷ raws) = new_device raw ∷ new_devices raws

-- `ScannerInfo`; the description is missing for a device that lost its raw device.
pub record ScannerInfo : Type 0 where
  pub name : String
  pub description : Option RawDevice

abbrev pub first_named : String → List (ℕ × SaneDevice) → Option (ℕ × SaneDevice)
first_named name [] = none
first_named name (d ∷ ds) =
    let rest = first_named name ds in if str_eq d.1.device_name name then some d else rest

abbrev pub scanner_infos : List (ℕ × SaneDevice) → List ScannerInfo
scanner_infos [] = []
scanner_infos ((a, d) ∷ ds) =
    record { name = d.device_name; description = d.raw_device } ∷ scanner_infos ds

module _ (b : Backend) where
  open b use {World, sane_get_devices}

  -- `devices` is `CSane::m_devices`, `known` is `CScannerService::m_devices`, `running` what the
  -- reactors hold.
  pub record ScannerService : Type 0 where
    pub heap : List SaneDevice
    pub devices : List ℕ
    pub running : List ℕ
    pub known : List ℕ
    pub last_device_fetch : ℕ
    pub world : World

  abbrev pub expired : ScannerService → ℕ → Bool
  expired s a = not (contains s.devices a || contains s.running a)

  abbrev pub fetched : ScannerService → SaneStatus × List RawDevice × World → ScannerService
  fetched s (status, raws, w) =
      if is_ok status
      then record s {
        heap = s.heap ++ new_devices raws;
        devices = addresses_from (length s.heap) raws;
        world = w;
      }
      else record s { devices = []; world = w }

  -- `CSane::get_devices`, with the list that it returns stored.
  unfoldable pub get_devices : ScannerService → Exec ScannerService
  get_devices s = sane_get_devices s.world false >>= λ r.
      let s₁ = fetched (record s { heap = clear_all s.devices s.heap; devices = [] }) r in
      ok (record s₁ { known = s₁.devices })

  -- Time is in seconds.
  unfoldable pub should_refresh_devices : ℕ → ScannerService → Bool
  should_refresh_devices now s = ltb (s.last_device_fetch + 30) now

  unfoldable pub refresh_devices : ℕ → ScannerService → Exec ScannerService
  unfolding get_devices should_refresh_devices
  refresh_devices now s =
      if should_refresh_devices now s
      then (get_devices s >>= λ s'. ok (record s' { last_device_fetch = now }))
      else ok s

  -- The devices of a list that are alive, with their addresses.
  abbrev pub alive : ScannerService → List ℕ → List (ℕ × SaneDevice)
  alive s [] = []
  alive s (a ∷ addresses) =
      let rest = alive s addresses in
      if expired s a then rest else elim (get_elem? s.heap a) as (λ _. List (ℕ × SaneDevice)) [
        | none ↦ rest
        | some d ↦ (a, d) ∷ rest
      ]

  unfoldable pub find_device : ScannerService → String → Option (ℕ × SaneDevice)
  find_device s name = first_named name (alive s s.known)

  unfoldable pub get_scanners : ℕ → ScannerService → Exec (List ScannerInfo × ScannerService)
  unfolding refresh_devices
  get_scanners now s = (if length s.known == 0 then refresh_devices now s else ok s) >>= λ s'.
      ok (scanner_infos (alive s' s'.known), s')

  -- `Scan`: the device of the reactor, or none for the empty reactor; the reactor holds it.
  abbrev pub hold : ScannerService → Option (ℕ × SaneDevice) → Option SaneDevice × ScannerService
  hold s none = (none, s)
  hold s (some (a, d)) = (some d, record s { running = s.running ++ (a ∷ []) })

  unfoldable pub scan_device : ScannerService → String → Option SaneDevice × ScannerService
  scan_device s name = hold s (find_device s name)
