-- ===== src/Globals/Search.antt =====
-- What the searches of gui-app/src/Utils/mDNS/mDnsAutoFind.cpp make of the services of
-- gui-app/src/Utils/Globals.hpp, beside the light of gui-app/src/Ui/SemaphoreWidget.cpp.
use Prim.Native.String.{String}
use sane_in_the_membrane.Common.{
  ℕ, ◌≡◌, refl, sym, ap, ◌∙◌, Bool, true, false, List, [], ◌∷◌, some, All, arith, inl, inr, ◌⊎◌,
}
use mathlib.Core.Path.{subst}
use sane_in_the_membrane.Common.Exec.{Exec, ok, fault, stuck, ◌>>=◌}
use sane_in_the_membrane.Semaphore.{
  Semaphore, red, green, show, on_finder_all, autodiscover_stopped_message, connected_message,
  unable_to_find_scanner_server_message, failed_to_discover_query_message,
}
use sane_in_the_membrane.Mdns.Query.{QueryResult, DnsRecord}
use sane_in_the_membrane.Mdns.AutoFind.{
  FinderSignal, sig_discovering, sig_mdns_discovered, outcome, discover_inner-outcome,
}
use sane_in_the_membrane.Globals.{
  Globals, proxies_of, new_globals, init, start_watcher, stop_watcher, app_events, run_app,
}
use sane_in_the_membrane.Globals.App.{run_app-hearers}
use sane_in_the_membrane.Globals.Searching.{
  Network, search_network, on_signals, search_all, run_searches, any_result, finds, HasSockets,
  IsServed, SettledWith, IsSettled, uninterrupted, events_of, search_globals,
  search_globals-app_events, found-events_of,
}

-- What returns has a first step that returns.
run_first :
    {A B : Type 0} (m : Exec A) (f : A → Exec B) (b : B)
    → (m >>= f) ≡ ok b
    → (a : A) × (m ≡ ok a) × (f a ≡ ok b)
run_first (ok a) f b e = (a, refl, e)
run_first fault f b e = cc e
run_first stuck f b e = cc e

-- The light takes the signals, and its flag is left.
abbrev Takes : List FinderSignal → Semaphore → Type 0
Takes signals light =
    (light' : Semaphore) × (on_finder_all signals light ≡ ok light')
    × (light'.stopped_auto_discovery ≡ light.stopped_auto_discovery)

found-Takes :
    (results : List QueryResult) (light : Semaphore)
    → ((b : Bool) × (light.stopped_auto_discovery ≡ some b)) ⊎ (any_result results ≡ 1)
    → Takes (sig_discovering ∷ sig_mdns_discovered results ∷ []) light
unfolding on_finder_all
found-Takes [] light (inl (true, e)) =
    (show red autodiscover_stopped_message light, rw e refl, refl)
found-Takes [] light (inl (false, e)) =
    (show red unable_to_find_scanner_server_message light, rw e refl, refl)
found-Takes [] light (inr h) = absurd (omega (arith, h))
found-Takes (r ∷ results) light h = (show green connected_message light, refl, refl)

outcome-Takes :
    (sockets query_sockets : List ℕ) (services : List String) (records : List DnsRecord)
    (light : Semaphore)
    → IsServed sockets query_sockets services
    → SettledWith light.stopped_auto_discovery sockets services records
    → (signals : List FinderSignal) × (outcome sockets query_sockets services records ≡ ok signals)
      × Takes signals light
unfolding on_finder_all
outcome-Takes [] query_sockets services records light h settled =
    (_, refl, (show red failed_to_discover_query_message light, refl, refl))
outcome-Takes (socket ∷ sockets) query_sockets [] records light h (inl known) =
    (_, refl, found-Takes [] light (inl known))
outcome-Takes (socket ∷ sockets) query_sockets [] records light h (inr (inl e)) = cc e
outcome-Takes (socket ∷ sockets) query_sockets [] records light h (inr (inr e)) =
    absurd (omega (arith, e))
outcome-Takes (socket ∷ sockets) [] (service ∷ services) records light h settled = absurd h
outcome-Takes (socket ∷ sockets) (q ∷ qs) (service ∷ services) records light h (inl known) =
    (_, refl, found-Takes _ light (inl known))
outcome-Takes (socket ∷ sockets) (q ∷ qs) (service ∷ services) records light h (inr (inl e)) = cc e
outcome-Takes (socket ∷ sockets) (q ∷ qs) (service ∷ services) records light h (inr (inr e)) =
    (_, refl, found-Takes _ light (inr e))

-- With the light, the searches do the same to the services.
search_all-globals :
    (networks : List Network) (globals globals' : Globals) (light : Semaphore)
    → All HasSockets networks
    → All (IsSettled light.stopped_auto_discovery) networks
    → search_globals networks globals ≡ ok globals'
    → (light' : Semaphore) × (search_all networks globals light ≡ ok (globals', light'))
      × (light'.stopped_auto_discovery ≡ light.stopped_auto_discovery)
unfolding search_all search_globals
search_all-globals [] globals globals' light h settled e =
    (light, ap (λ m. m >>= λ g. ok (g, light)) e, refl)
search_all-globals (n ∷ networks) globals globals' light h settled e =
    let (signals, ends, (light₁, taken, same)) =
      outcome-Takes n.sockets n.query_sockets n.services n.records light h.0 settled.0 in
    let searched : search_network n ≡ ok (signals, false) =
      discover_inner-outcome n.sockets n.query_sockets n.services n.records
      ∙ ap (λ m. m >>= λ xs. uninterrupted xs) ends in
    let left : (on_signals signals globals >>= λ g. search_globals networks g) ≡ ok globals' =
      ap (λ m. m >>= λ r. on_signals r.0 globals >>= λ g. search_globals networks g) (sym searched)
      ∙ e in
    let (globals₁, e₁, later) =
      run_first (on_signals signals globals) (λ g. search_globals networks g) globals' left in
    let (light', rest, kept) =
      search_all-globals networks globals₁ globals' light₁ h.1
        (subst (λ flag. All (IsSettled flag) networks) (sym same) settled.1) later in
    (
      light',
      ap
            (λ m. m >>= λ r. on_signals r.0 globals >>= λ g.
              on_finder_all r.0 light >>= λ l. search_all networks g l)
            searched
          ∙ ap (λ m. m >>= λ g. on_finder_all signals light >>= λ l. search_all networks g l) e₁
          ∙ ap (λ m. m >>= λ l. search_all networks globals₁ l) taken
          ∙ rest,
      kept ∙ same,
    )

-- The services of the program follow the searches: if no search lacks sockets for its query, and the flag
-- of the light is set before them, by a click on it or because the discovery was stopped, or each
-- search finds a server or has no sockets at all, then the program runs without a fault, and in the
-- end its services, and those that its proxies hold, have been replaced as often as a search found a
-- server: one that was advertised and whose answers for IPv4 made a result; the flag is left.
pub run_searches-finds :
    (networks : List Network) (light : Semaphore)
    → All HasSockets networks
    → All (IsSettled light.stopped_auto_discovery) networks
    → (globals : Globals) × (light' : Semaphore) × (run_searches networks light
        ≡ ok (globals, light'))
      × (globals.services ≡ some (finds networks))
      × (globals.proxies ≡ some (proxies_of (finds networks)))
      × (light'.stopped_auto_discovery ≡ light.stopped_auto_discovery)
unfolding run_searches run_app
run_searches-finds networks light h settled =
    let (globals, e, services, proxies, heard, stopped) = run_app-hearers (events_of networks) in
    let (started, e_start, later) =
      run_first (start_watcher (init new_globals))
        (λ g. app_events (events_of networks) g >>= λ g'. stop_watcher g') globals e in
    let (ended, e_end, e_stop) =
      run_first (app_events (events_of networks) started) (λ g. stop_watcher g) globals later in
    let (light', all, kept) =
      search_all-globals networks started ended light h settled
        (search_globals-app_events networks started h ∙ e_end) in
    (
      globals,
      light',
      ap
            (λ m. m >>= λ g.
              search_all networks g light >>= λ r. stop_watcher r.0 >>= λ g'. ok (g', r.1))
            e_start
          ∙ ap (λ m. m >>= λ r. stop_watcher r.0 >>= λ g'. ok (g', r.1)) all
          ∙ ap (λ m. m >>= λ g'. ok (g', light')) e_stop,
      services ∙ ap some (found-events_of networks),
      proxies ∙ ap (λ n. some (proxies_of n)) (found-events_of networks),
      kept,
    )
