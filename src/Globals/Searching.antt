-- ===== src/Globals/Searching.antt =====
-- The searches of gui-app/src/Utils/mDNS/mDnsAutoFind.cpp and the services of
-- gui-app/src/Utils/Globals.hpp, which the slot of a search replaces.
use Prim.Native.String.{String}
use sane_in_the_membrane.Common.{
  ℕ, ◌+◌, ◌≡◌, refl, ap, ◌∙◌, Bool, false, List, [], ◌∷◌, Option, some, All, arith, ◌⊎◌,
}
use sane_in_the_membrane.Common.Exec.{Exec, ok, fault, stuck, ◌>>=◌}
use sane_in_the_membrane.Semaphore.{Semaphore, on_finder_all}
use sane_in_the_membrane.Mdns.Query.{QueryResult, DnsRecord, no_partial, query_all, query_services}
use sane_in_the_membrane.Mdns.Results.{without_ipv6}
use sane_in_the_membrane.Mdns.AutoFind.{
  FinderSignal, sig_discovering, sig_mdns_discovered, sig_discover_failed, sig_query_failed,
  discover_inner, discover_services, outcome, discover_inner-outcome,
}
use sane_in_the_membrane.Globals.{
  Globals, new_globals, init, change_channel, start_watcher, stop_watcher, AppEvent, server_found,
  app_event, app_events,
}
use sane_in_the_membrane.Globals.App.{found}

-- What the network holds for one search.
pub record Network : Type 0 where
  pub sockets : List ℕ
  pub query_sockets : List ℕ
  pub services : List String
  pub records : List DnsRecord

-- The slot of the constructor.
abbrev pub on_discovered : List QueryResult → Globals → Exec Globals
on_discovered [] globals = ok globals
on_discovered (r ∷ results) globals = change_channel globals

abbrev pub on_signal : FinderSignal → Globals → Exec Globals
on_signal sig_discovering globals = ok globals
on_signal (sig_mdns_discovered results) globals = on_discovered results globals
on_signal (sig_discover_failed e) globals = ok globals
on_signal (sig_query_failed e) globals = ok globals

unfoldable pub on_signals : List FinderSignal → Globals → Exec Globals
on_signals [] globals = ok globals
on_signals (s ∷ signals) globals = on_signal s globals >>= λ globals'. on_signals signals globals'

abbrev pub search_network : Network → Exec (List FinderSignal × Bool)
search_network n =
    discover_inner (discover_services n.sockets)
      (query_services n.services n.query_sockets n.records) false

unfoldable pub search_all : List Network → Globals → Semaphore → Exec (Globals × Semaphore)
unfolding on_signals on_finder_all
search_all [] globals light = ok (globals, light)
search_all (n ∷ networks) globals light = search_network n >>= λ r.
    on_signals r.0 globals >>= λ globals'.
    on_finder_all r.0 light >>= λ light'. search_all networks globals' light'

-- The program from its start to its end, with searches in between and the light as it is before them.
unfoldable pub run_searches : List Network → Semaphore → Exec (Globals × Semaphore)
unfolding search_all
run_searches networks light = do
  started ← start_watcher (init new_globals)
  ended ← search_all networks started light
  stopped ← stop_watcher ended.0
  ok (stopped, ended.1)

-- Reference: whether a search finds a server, from the answers for IPv4.
abbrev pub any_result : List QueryResult → ℕ
any_result [] = 0
any_result (r ∷ results) = 1

abbrev pub finds_with : List ℕ → List String → List DnsRecord → ℕ
finds_with [] services records = 0
finds_with (socket ∷ sockets) [] records = 0
finds_with (socket ∷ sockets) (service ∷ services) records =
    any_result (query_all (without_ipv6 records) (no_partial, [])).1

abbrev pub finds : List Network → ℕ
finds [] = 0
finds (n ∷ networks) = finds_with n.sockets n.services n.records + finds networks

-- The query gets sockets wherever a server is advertised; without them the search is undefined.
abbrev pub IsServed : List ℕ → List ℕ → List String → Type 0
IsServed [] query_sockets services = Unit
IsServed (socket ∷ sockets) query_sockets [] = Unit
IsServed (socket ∷ sockets) [] (service ∷ services) = ⊥
IsServed (socket ∷ sockets) (query_socket ∷ query_sockets) (service ∷ services) = Unit

abbrev pub HasSockets : Network → Type 0
HasSockets n = IsServed n.sockets n.query_sockets n.services

-- The flag of the light is set, or the search does not lead to the message that depends on it.
abbrev pub SettledWith : Option Bool → List ℕ → List String → List DnsRecord → Type 0
SettledWith flag sockets services records =
    ((b : Bool) × (flag ≡ some b)) ⊎ (sockets ≡ []) ⊎ (finds_with sockets services records ≡ 1)

abbrev pub IsSettled : Option Bool → Network → Type 0
IsSettled flag n = SettledWith flag n.sockets n.services n.records

abbrev pub uninterrupted : List FinderSignal → Exec (List FinderSignal × Bool)
uninterrupted signals = ok (signals, false)

-- The events of the program that the searches are.
abbrev push : List QueryResult → List AppEvent → List AppEvent
push [] events = events
push (r ∷ results) events = server_found ∷ events

abbrev events_with : List ℕ → List String → List DnsRecord → List AppEvent → List AppEvent
events_with [] services records events = events
events_with (socket ∷ sockets) [] records events = events
events_with (socket ∷ sockets) (service ∷ services) records events =
    push (query_all (without_ipv6 records) (no_partial, [])).1 events

abbrev pub events_of : List Network → List AppEvent
events_of [] = []
events_of (n ∷ networks) = events_with n.sockets n.services n.records (events_of networks)

-- What the searches do to the services alone.
unfoldable pub search_globals : List Network → Globals → Exec Globals
unfolding on_signals
search_globals [] globals = ok globals
search_globals (n ∷ networks) globals = search_network n >>= λ r.
    on_signals r.0 globals >>= λ globals'. search_globals networks globals'

bind_ok : {A B : Type 0} (m : Exec A) (f : A → Exec B) → ((m >>= λ a. ok a) >>= f) ≡ (m >>= f)
bind_ok (ok a) f = refl
bind_ok fault f = refl
bind_ok stuck f = refl

module _ (networks : List Network) (events : List AppEvent)
    (later : (globals : Globals)
      → search_globals networks globals ≡ app_events events globals) where
  discovered :
      (results : List QueryResult) (globals : Globals)
      → (on_signals (sig_discovering ∷ sig_mdns_discovered results ∷ []) globals >>= λ globals'.
          search_globals networks globals')
        ≡ app_events (push results events) globals
  unfolding on_signals app_events app_event
  discovered [] globals = later globals
  discovered (r ∷ results) globals =
      bind_ok (change_channel globals) (λ globals'. search_globals networks globals') ∙ λ i.
      change_channel globals >>= λ globals'. later globals' i

  searched :
      (sockets query_sockets : List ℕ) (services : List String) (records : List DnsRecord)
      (globals : Globals)
      → IsServed sockets query_sockets services
      → ((outcome sockets query_sockets services records >>= λ signals. uninterrupted signals)
          >>= λ r. on_signals r.0 globals >>= λ globals'. search_globals networks globals')
        ≡ app_events (events_with sockets services records events) globals
  unfolding on_signals
  searched [] query_sockets services records globals h = later globals
  searched (socket ∷ sockets) query_sockets [] records globals h = later globals
  searched (socket ∷ sockets) [] (service ∷ services) records globals h = absurd h
  searched (socket ∷ sockets) (q ∷ query_sockets) (service ∷ services) records globals h =
      discovered (query_all (without_ipv6 records) (no_partial, [])).1 globals

pub search_globals-app_events :
    (networks : List Network) (globals : Globals)
    → All HasSockets networks
    → search_globals networks globals ≡ app_events (events_of networks) globals
unfolding search_globals app_events
search_globals-app_events [] globals h = refl
search_globals-app_events (n ∷ networks) globals h =
    ap (λ m. m >>= λ r. on_signals r.0 globals >>= λ globals'. search_globals networks globals')
      (discover_inner-outcome n.sockets n.query_sockets n.services n.records)
    ∙ searched networks (events_of networks)
        (λ globals'. search_globals-app_events networks globals' h.1) n.sockets n.query_sockets
        n.services n.records globals h.0

found-push :
    (results : List QueryResult) (events : List AppEvent)
    → found (push results events) ≡ any_result results + found events
found-push [] events = omega arith
found-push (r ∷ results) events = omega arith

found-events_with :
    (sockets : List ℕ) (services : List String) (records : List DnsRecord) (events : List AppEvent)
    → found (events_with sockets services records events)
      ≡ finds_with sockets services records + found events
found-events_with [] services records events = omega arith
found-events_with (socket ∷ sockets) [] records events = omega arith
found-events_with (socket ∷ sockets) (service ∷ services) records events = found-push _ events

pub found-events_of : (networks : List Network) → found (events_of networks) ≡ finds networks
found-events_of [] = refl
found-events_of (n ∷ networks) =
    found-events_with n.sockets n.services n.records (events_of networks)
    ∙ ap (λ k. finds_with n.sockets n.services n.records + k) (found-events_of networks)
