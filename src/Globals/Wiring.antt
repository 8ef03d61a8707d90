-- ===== src/Globals/Wiring.antt =====
-- What `Globals::change_channel` (gui-app/src/Utils/Globals.hpp) leaves connected, and the watchers of
-- the generations.
use sane_in_the_membrane.Common.{
  ℕ, suc, ◌<◌, ◌≡◌, refl, true, false, List, ◌++◌, some, ◌==◌, ==_iff, if◌then◌else◌, arith,
}
use sane_in_the_membrane.Common.Exec.{ok}
use sane_in_the_membrane.Watcher.Thread.{
  looping, returned, WatcherService, new_service, start, stop,
}
use sane_in_the_membrane.Globals.{
  state_change_watcher, device_list, get_scanner_service, refresh_scanner_service,
  scan_response_reader, Connection, device_list_connections, set_connections, drop_generation,
  replace_services, Globals, proxies_of, change_channel,
}

-- The connections of one generation.
abbrev pub wired : ℕ → List Connection
wired g =
    device_list_connections g
    ++ (set_connections state_change_watcher g
        ++ (set_connections device_list g
            ++ (set_connections get_scanner_service g
                ++ (set_connections refresh_scanner_service g
                    ++ set_connections scan_response_reader g))))

same_generation : (g : ℕ) → (g == g) ≡ true
same_generation g = (==_iff g g).1 refl

next_generation : (g : ℕ) → (suc g == g) ≡ false
next_generation g = ground arith

old_generation : (g : ℕ) → (g == suc g) ≡ false
old_generation g = ground arith

replace_services-wired :
    (g : ℕ)
    → drop_generation g
        (replace_services (proxies_of g) (suc g) (wired g ++ device_list_connections (suc g)))
      ≡ wired (suc g)
unfolding replace_services
replace_services-wired g = ground (arith, same_generation g, next_generation g)

-- The program at a generation.
abbrev pub at_generation : ℕ → (ℕ → WatcherService) → Globals
at_generation g watchers = record {
  initialized = true;
  services = some g;
  proxies = some (proxies_of g);
  connections = wired g;
  watchers = watchers;
  generations = suc g;
}

-- The watcher of the generation watches, the earlier ones have ended, the later ones are not made.
pub record Watching (g : ℕ) (watchers : ℕ → WatcherService) : Type 0 where
  pub started : (watchers g).started ≡ true
  pub watches : (watchers g).thread ≡ some looping
  pub ended :
      (i : ℕ) → i < g → ((watchers i).started ≡ false) × ((watchers i).thread ≡ some returned)
  pub unmade : (i : ℕ) → g < i → watchers i ≡ new_service

abbrev pub swapped : ℕ → (ℕ → WatcherService) → ℕ → WatcherService
swapped g watchers i =
    if g == i
    then record (stop (watchers g)) { thread = some returned }
    else if suc g == i
    then record new_service { started = true; thread = some looping }
    else if g == i
    then stop (watchers g)
    else watchers i

pub change_channel-at_generation :
    (g : ℕ) (watchers : ℕ → WatcherService)
    → Watching g watchers
    → change_channel (at_generation g watchers) ≡ ok (at_generation (suc g) (swapped g watchers))
unfolding change_channel start stop
change_channel-at_generation g watchers w =
    ground (arith, w.unmade (suc g) (omega arith), w.watches, replace_services-wired g)

pub swapped-Watching :
    (g : ℕ) (watchers : ℕ → WatcherService)
    → Watching g watchers
    → Watching (suc g) (swapped g watchers)
unfolding stop
swapped-Watching g watchers w = record {
  started = ground arith;
  watches = ground arith;
  ended = λ i h. ground (arith, h, w.ended i);
  unmade = λ i h. ground (arith, h, w.unmade i);
}
