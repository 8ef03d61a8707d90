-- ===== src/Service/Find.antt =====
-- What clients of server/src/Service/ScannerService.cpp see after the devices were fetched.
use Prim.Native.String.{String}
use text.Mathlib.Text.{◌==◌ as str_eq}
use sane_in_the_membrane.Common.{
  ℕ, suc, ◌+◌, ◌<◌, ◌≡◌, refl, ap, ◌∙◌, sym, true, false, List, [], ◌∷◌, ◌++◌, Option, none, some,
  ◌==◌, if◌then◌else◌, length, get_elem?, get_elem?-append, All, map, arith, append_assoc, lt→ltb,
  length-append, Bool-cases, inl, inr, ==_iff, ◌≤◌,
}
use sane_in_the_membrane.Common.Exec.{ok}
use sane_in_the_membrane.Sane.Status.{SaneStatus, is_ok}
use sane_in_the_membrane.Sane.Backend.{Backend, RawDevice}
use sane_in_the_membrane.Sane.Device.{SaneDevice, new_device}
use sane_in_the_membrane.Service.{
  contains, clear_all, addresses_from, new_devices, ScannerInfo, ScannerService, get_devices,
  should_refresh_devices, refresh_devices, alive, first_named, find_device, scanner_infos,
  get_scanners, scan_device, hold,
}

abbrev pub info : RawDevice → ScannerInfo
info raw = record { name = raw.name; description = some raw }

-- Reference: the first device of the library's list with a name.
abbrev pub first_raw : String → List RawDevice → Option RawDevice
first_raw name [] = none
first_raw name (raw ∷ raws) =
    let rest = first_raw name raws in if str_eq raw.name name then some raw else rest

abbrev pub map_option : Option RawDevice → Option SaneDevice
map_option none = none
map_option (some raw) = some (new_device raw)

option_device : Option (ℕ × SaneDevice) → Option SaneDevice
option_device none = none
option_device (some (a, d)) = some d

entries_from : ℕ → List RawDevice → List (ℕ × SaneDevice)
entries_from n [] = []
entries_from n (raw ∷ raws) = (n, new_device raw) ∷ entries_from (suc n) raws

contains-cons : (b a : ℕ) (bs : List ℕ) → contains bs a ≡ true → contains (b ∷ bs) a ≡ true
contains-cons b a bs h = elim (Bool-cases (b == a)) [ inl e ↦ rw e refl | inr e ↦ rw e h ]

All-contains-cons :
    (b : ℕ) (bs xs : List ℕ)
    → All (λ a. contains bs a ≡ true) xs
    → All (λ a. contains (b ∷ bs) a ≡ true) xs
All-contains-cons b bs [] h = tt
All-contains-cons b bs (a ∷ xs) h = (contains-cons b a bs h.0, All-contains-cons b bs xs h.1)

contains_self : (xs : List ℕ) → All (λ a. contains xs a ≡ true) xs
contains_self [] = tt
contains_self (b ∷ bs) =
    (rw ((==_iff b b).1 refl) refl, All-contains-cons b bs bs (contains_self bs))

scanner_infos-entries :
    (n : ℕ) (raws : List RawDevice) → scanner_infos (entries_from n raws) ≡ map info raws
unfolding entries_from new_device
scanner_infos-entries n [] = refl
scanner_infos-entries n (raw ∷ raws) = ap (◌∷◌ (info raw)) (scanner_infos-entries (suc n) raws)

first_named-entries :
    (name : String) (n : ℕ) (raws : List RawDevice)
    → option_device (first_named name (entries_from n raws)) ≡ map_option (first_raw name raws)
unfolding entries_from new_device option_device
first_named-entries name n [] = refl
first_named-entries name n (raw ∷ raws) = elim (Bool-cases (str_eq raw.name name)) [
  | inl e ↦ rw e refl
  | inr e ↦ rw e (first_named-entries name (suc n) raws)
]

module _ (b : Backend) where
  alive-entries :
      (s : ScannerService b) (before : List SaneDevice) (n : ℕ) (raws : List RawDevice)
      → n ≡ length before
      → s.heap ≡ before ++ new_devices raws
      → All (λ a. contains s.devices a ≡ true) (addresses_from n raws)
      → alive b s (addresses_from n raws) ≡ entries_from n raws
  unfolding entries_from
  alive-entries s before n [] en e h = refl
  alive-entries s before n (raw ∷ raws) en e h =
      let rest =
        alive-entries s (before ++ (new_device raw ∷ [])) (suc n) raws
          (omega (arith, length-append before (new_device raw ∷ []), en))
          (e ∙ sym (append_assoc before (new_device raw ∷ []) (new_devices raws))) h.1 in
      let here : get_elem? s.heap n ≡ some (new_device raw) =
        rw (e, en) (get_elem?-append before (new_devices raws) (new_device raw)) in
      simp (h.0, here, rest)

  open b use {World, sane_get_devices}

  -- The service after it fetched `raws`.
  abbrev pub refreshed : ScannerService b → List RawDevice → World → ℕ → ScannerService b
  refreshed s raws w now = record s {
    heap = clear_all s.devices s.heap ++ new_devices raws;
    devices = addresses_from (length (clear_all s.devices s.heap)) raws;
    known = addresses_from (length (clear_all s.devices s.heap)) raws;
    last_device_fetch = now;
    world = w;
  }

  alive-refreshed :
      (s : ScannerService b) (raws : List RawDevice) (w : World) (now : ℕ)
      → alive b (refreshed s raws w now) (refreshed s raws w now).known
        ≡ entries_from (length (clear_all s.devices s.heap)) raws
  alive-refreshed s raws w now =
      alive-entries (refreshed s raws w now) (clear_all s.devices s.heap) _ raws refl refl
        (contains_self (addresses_from (length (clear_all s.devices s.heap)) raws))

  -- The devices were fetched more than half a minute ago, and the library answers with `raws`.
  pub record Answers (s : ScannerService b) (now : ℕ) (raws : List RawDevice) (w : World)
      : Type 0 where
    pub status : SaneStatus
    pub answer : sane_get_devices s.world false ≡ ok (status, raws, w)
    pub success : is_ok status ≡ true
    pub late : s.last_device_fetch + 30 < now

  pub refresh_devices-refreshed :
      (s : ScannerService b) (now : ℕ) (raws : List RawDevice) (w : World)
      → Answers s now raws w
      → refresh_devices b now s ≡ ok (refreshed s raws w now)
  unfolding refresh_devices get_devices should_refresh_devices
  refresh_devices-refreshed s now raws w a =
      simp (lt→ltb (s.last_device_fetch + 30) now a.late, a.answer, a.success)

  get_scanners-current :
      (s : ScannerService b) (now : ℕ)
      → should_refresh_devices b now s ≡ false
      → get_scanners b now s ≡ ok (scanner_infos (alive b s s.known), s)
  unfolding get_scanners refresh_devices
  get_scanners-current s now early = elim (Bool-cases (length s.known == 0)) [
    | inl e ↦ simp (e, early)
    | inr e ↦ simp e
  ]

  recent :
      (s : ScannerService b) (now : ℕ)
      → now ≤ s.last_device_fetch + 30
      → should_refresh_devices b now s ≡ false
  unfolding should_refresh_devices
  recent s now h = ground arith

  hold-device :
      (s : ScannerService b) (o : Option (ℕ × SaneDevice)) → (hold b s o).0 ≡ option_device o
  unfolding option_device
  hold-device s none = refl
  hold-device s (some (a, d)) = refl

  scan_device-found :
      (s : ScannerService b) (name : String)
      → (scan_device b s name).0 ≡ option_device (first_named name (alive b s s.known))
  unfolding scan_device find_device
  scan_device-found s name = hold-device s (first_named name (alive b s s.known))

  -- After a refresh that the library answers, clients see exactly the devices of its answer, in its
  -- order, with their descriptions, and asking again fetches nothing; a scan takes the first device
  -- of that answer with the name asked for, fresh and closed, and none if no device has it.
  pub refresh_devices-get_scanners :
      (s : ScannerService b) (now later : ℕ) (raws : List RawDevice) (w : World) (name : String)
      → Answers s now raws w
      → later ≤ now + 30
      → (s' : ScannerService b) × (refresh_devices b now s ≡ ok s')
        × (get_scanners b later s' ≡ ok (map info raws, s'))
        × ((scan_device b s' name).0 ≡ map_option (first_raw name raws))
  refresh_devices-get_scanners s now later raws w name a soon = (
    refreshed s raws w now,
    refresh_devices-refreshed s now raws w a,
    get_scanners-current (refreshed s raws w now) later (recent (refreshed s raws w now) later soon)
        ∙ ap (λ infos. ok (infos, refreshed s raws w now))
            (ap scanner_infos (alive-refreshed s raws w now)
              ∙ scanner_infos-entries (length (clear_all s.devices s.heap)) raws),
    scan_device-found (refreshed s raws w now) name
        ∙ ap (λ ds. option_device (first_named name ds)) (alive-refreshed s raws w now)
        ∙ first_named-entries name (length (clear_all s.devices s.heap)) raws,
  )
