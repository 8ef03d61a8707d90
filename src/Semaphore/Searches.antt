-- ===== src/Semaphore/Searches.antt =====
-- What the light shows after a search, and beside a watcher.
use Prim.Native.String.{String}
use sane_in_the_membrane.Common.{
  ℕ, ◌≡◌, refl, ap, ◌∙◌, Bool, true, false, List, [], ◌∷◌, ◌++◌, Option, none, some, arith,
}
use sane_in_the_membrane.Common.Exec.{Exec, ok, fault, stuck, ◌>>=◌}
use sane_in_the_membrane.Watcher.{ConnectivityState, WatcherEvent, Watcher, watch_round, watch}
use sane_in_the_membrane.Mdns.Query.{QueryResult, DnsRecord, no_partial, query_all, query_services}
use sane_in_the_membrane.Mdns.Results.{without_ipv6}
use sane_in_the_membrane.Mdns.AutoFind.{
  FinderSignal, sig_discovering, sig_mdns_discovered, discover_inner, discover_services,
  discover_inner-outcome, outcome,
}
use sane_in_the_membrane.Semaphore.{
  Light, red, yellow, green, Semaphore, show, light_of, nothing_found,
  failed_to_discover_query_message, connected_message, connecting_message, on_finder_all,
  on_watcher, on_watcher_all,
}

-- Reference: what is shown after a search, from whether it was interrupted, the sockets of its discovery and of its query, the
-- services that were advertised and the servers that were found.
abbrev pub displayed :
    Bool → List ℕ → List ℕ → List String → List QueryResult → Semaphore → Exec Semaphore
displayed interrupted [] query_sockets services results s =
    ok (show red failed_to_discover_query_message s)
displayed true (socket ∷ sockets) query_sockets services results s =
    ok (show yellow connecting_message s)
displayed false (socket ∷ sockets) query_sockets [] results s =
    nothing_found s.stopped_auto_discovery s
displayed false (socket ∷ sockets) [] (service ∷ services) results s = fault
displayed false (socket ∷ sockets) (q ∷ query_sockets) (service ∷ services) [] s =
    nothing_found s.stopped_auto_discovery s
displayed false (socket ∷ sockets) (q ∷ query_sockets) (service ∷ services) (r ∷ results) s =
    ok (show green connected_message s)

-- What the light showed before is forgotten.
nothing_found_shown :
    (flag : Option Bool) (status : Light) (text : String) (s : Semaphore)
    → (nothing_found flag (show status text s) >>= λ s'. ok s') ≡ nothing_found flag s
nothing_found_shown none status text s = refl
nothing_found_shown (some true) status text s = refl
nothing_found_shown (some false) status text s = refl

found-displayed :
    (socket q : ℕ) (sockets qs : List ℕ) (service : String) (services : List String)
    (results : List QueryResult) (s : Semaphore)
    → on_finder_all (sig_discovering ∷ sig_mdns_discovered results ∷ []) s
      ≡ displayed false (socket ∷ sockets) (q ∷ qs) (service ∷ services) results s
unfolding on_finder_all
found-displayed socket q sockets qs service services [] s =
    nothing_found_shown s.stopped_auto_discovery _ _ s
found-displayed socket q sockets qs service services (r ∷ results) s = refl

outcome-displayed :
    (sockets query_sockets : List ℕ) (services : List String) (records : List DnsRecord)
    (s : Semaphore)
    → (outcome sockets query_sockets services records >>= λ signals. on_finder_all signals s)
      ≡ displayed false sockets query_sockets services
          (query_all (without_ipv6 records) (no_partial, [])).1
          s
unfolding on_finder_all
outcome-displayed [] qs services records s = refl
outcome-displayed (socket ∷ sockets) qs [] records s =
    nothing_found_shown s.stopped_auto_discovery _ _ s
outcome-displayed (socket ∷ sockets) [] (service ∷ services) records s = refl
outcome-displayed (socket ∷ sockets) (q ∷ qs) (service ∷ services) records s =
    found-displayed socket q sockets qs service services _ s

-- The light is given the signals of a search.
abbrev pub shown_by : Exec (List FinderSignal × Bool) → Semaphore → Exec Semaphore
shown_by m s = m >>= λ (r : List FinderSignal × Bool). on_finder_all r.0 s

uninterrupted : Exec (List FinderSignal) → Exec (List FinderSignal × Bool)
uninterrupted m = m >>= λ signals. ok (signals, false)

shown_by-uninterrupted :
    (m : Exec (List FinderSignal)) (s : Semaphore)
    → shown_by (uninterrupted m) s ≡ (m >>= λ signals. on_finder_all signals s)
unfolding uninterrupted
shown_by-uninterrupted (ok signals) s = refl
shown_by-uninterrupted fault s = refl
shown_by-uninterrupted stuck s = refl

-- What the light shows after a search: red and a message without sockets; if it was interrupted, the
-- yellow of the discovery that it began; otherwise green if an IPv4 answer to the query has a port and an address; if none has, or no server was
-- advertised, red with a message for which the flag of the stopped discovery is read, and that is
-- undefined before it was first set; a query without sockets is undefined too.
pub discover_inner-displayed :
    (interrupted : Bool) (sockets query_sockets : List ℕ) (services : List String)
    (records : List DnsRecord) (s : Semaphore)
    → shown_by
        (discover_inner
          (discover_services sockets)
          (query_services services query_sockets records)
          interrupted)
        s
      ≡ displayed interrupted sockets query_sockets services
          (query_all (without_ipv6 records) (no_partial, [])).1
          s
unfolding uninterrupted discover_inner on_finder_all
discover_inner-displayed false sockets query_sockets services records s =
    ap (λ m. shown_by m s) (discover_inner-outcome sockets query_sockets services records)
    ∙ shown_by-uninterrupted (outcome sockets query_sockets services records) s
    ∙ outcome-displayed sockets query_sockets services records s
discover_inner-displayed true [] query_sockets services records s = refl
discover_inner-displayed true (socket ∷ sockets) query_sockets services records s = refl

round-light :
    (state : ConnectivityState) (w : Watcher) (s : Semaphore)
    → s.status ≡ light_of w.state
    → (on_watcher_all (watch_round state w).0 s).status ≡ light_of (watch_round state w).1.state
unfolding watch_round on_watcher_all
round-light state w s e = ground arith

on_watcher_all-append :
    (xs ys : List WatcherEvent) (s : Semaphore)
    → on_watcher_all (xs ++ ys) s ≡ on_watcher_all ys (on_watcher_all xs s)
unfolding on_watcher_all
on_watcher_all-append [] ys s = refl
on_watcher_all-append (x ∷ xs) ys s = on_watcher_all-append xs ys (on_watcher x s)

-- If the light agrees with the state of the watcher, it agrees with it after any rounds, those that
-- stop the discovery included.
pub on_watcher_all-watch :
    (states : List ConnectivityState) (w : Watcher) (s : Semaphore)
    → s.status ≡ light_of w.state
    → (on_watcher_all (watch states w).0 s).status ≡ light_of (watch states w).1.state
unfolding watch on_watcher_all
on_watcher_all-watch [] w s e = e
on_watcher_all-watch (state ∷ states) w s e =
    rw (on_watcher_all-append (watch_round state w).0 (watch states (watch_round state w).1).0 s) (
      on_watcher_all-watch states (watch_round state w).1 (on_watcher_all (watch_round state w).0 s)
        (round-light state w s e))
