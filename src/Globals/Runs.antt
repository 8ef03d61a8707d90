-- ===== src/Globals/Runs.antt =====
-- A concrete life of the program, and the theorem at it.
use Prim.Native.String.{String}
use sane_in_the_membrane.Mdns.Query.{DnsRecord, srv, a_record, aaaa_record, query_all}
use sane_in_the_membrane.Globals.Searching.{Network, run_searches}
use sane_in_the_membrane.Globals.Search.{run_searches-finds}
use sane_in_the_membrane.Semaphore.{Semaphore, new_semaphore}
use sane_in_the_membrane.Common.{ℕ, ◌≡◌, refl, inl, false, List, [], ◌∷◌, some, ◌==◌, if◌then◌else◌}
use sane_in_the_membrane.Common.Exec.{ok}
use sane_in_the_membrane.Watcher.{ready, transient_failure}
use sane_in_the_membrane.Globals.{
  Globals, Signal, proxies_of, AppEvent, server_found, watcher_turned, run_app,
}
use sane_in_the_membrane.Globals.App.{hearers, audience, run_app-hearers}

-- Two servers are found one after the other.
abbrev events : List AppEvent
events =
    watcher_turned 0 transient_failure
    ∷ server_found
    ∷ watcher_turned 0 ready
    ∷ watcher_turned 1 ready
    ∷ server_found
    ∷ []

run_app-hearers_example :
    (globals : Globals) × (run_app events ≡ ok globals)
    × (globals.services ≡ some 2)
    × (globals.proxies ≡ some (proxies_of 2))
    × ((signal : Signal) (i : ℕ)
        → hearers signal i globals.connections ≡ (if 2 == i then audience signal 2 else []))
    × ((i : ℕ) → (globals.watchers i).started ≡ false)
run_app-hearers_example = run_app-hearers events

-- A machine without a network, one server, none, and a server for IPv6 alone.
abbrev lan : List DnsRecord → List String → Network
lan records services = record {
  sockets = 3 ∷ [];
  query_sockets = 4 ∷ [];
  services = services;
  records = records;
}

abbrev networks : List Network
networks =
    record { sockets = []; query_sockets = []; services = "a" ∷ []; records = [] }
    ∷ lan (srv 50051 ∷ a_record "10.0.0.2" ∷ []) ("a" ∷ [])
    ∷ lan (srv 50051 ∷ a_record "10.0.0.2" ∷ []) []
    ∷ lan (srv 50051 ∷ aaaa_record "fe80::1" ∷ []) ("a" ∷ [])
    ∷ []

-- The light was clicked.
abbrev clicked_light : Semaphore
clicked_light = record new_semaphore { stopped_auto_discovery = some false; searches = 1 }

run_searches-finds_example :
    (globals : Globals) × (light : Semaphore) × (run_searches networks clicked_light
      ≡ ok (globals, light))
    × (globals.services ≡ some 1)
    × (globals.proxies ≡ some (proxies_of 1))
    × (light.stopped_auto_discovery ≡ some false)
unfolding query_all
run_searches-finds_example =
    run_searches-finds networks clicked_light (tt, (tt, (tt, (tt, tt))))
      (inl (false, refl), (inl (false, refl), (inl (false, refl), (inl (false, refl), tt))))
