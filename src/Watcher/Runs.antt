-- ===== src/Watcher/Runs.antt =====
-- Concrete runs of the watcher, and the theorems at them.
use sane_in_the_membrane.Common.{List, [], ◌∷◌, arith, true, some}
use sane_in_the_membrane.Watcher.Thread.{WatcherService, looping}
use sane_in_the_membrane.Watcher.{
  ConnectivityState, connecting, transient_failure, new_watcher, watch,
}
use sane_in_the_membrane.Watcher.Discovery.{Tried, watch-Tried}

abbrev started_service : WatcherService
started_service = record { started = true; thread = some looping; watcher = new_watcher }

abbrev flapping : List ConnectivityState
flapping =
    transient_failure ∷ connecting ∷ transient_failure ∷ transient_failure ∷ transient_failure
    ∷ transient_failure ∷ transient_failure ∷ []

watch-Tried_example :
    Tried 6 new_watcher (watch flapping new_watcher).0 (watch flapping new_watcher).1
watch-Tried_example =
    watch-Tried flapping new_watcher (tt, (tt, (tt, (tt, (tt, (tt, (tt, tt))))))) (omega arith)
