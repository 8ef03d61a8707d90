-- ===== src/Mdns/Heard.antt =====
-- Which replies a search of gui-app/src/Utils/mDNS/mDns.cpp hears.
use text.Mathlib.Text.{◌==◌ as str_eq}
use sane_in_the_membrane.Common.{
  ◌≡◌, refl, sym, ap, ◌∙◌, Bool, true, false, List, [], ◌∷◌, ◌++◌, ◌==◌, ◌&&◌, append-nil,
  append_assoc, if◌then◌else◌, Bool-cases, inl, inr,
}
use sane_in_the_membrane.Mdns.Results.{without_ipv6, query_all-without_ipv6}
use sane_in_the_membrane.Mdns.Query.{
  PartialQueryResult, QueryResult, no_partial, DnsRecord, query_callback, query_all,
}
use sane_in_the_membrane.Mdns.Replies.{
  Reply, MdnsQuery, recordtype_ptr, expected_entry_type_name, service_name, contains,
  discover_callback, discover_callbacks, Selected, nothing_ready, ready, discover_loop, query_loop,
  query_results, search,
}

-- Reference: the replies that a loop hears, the first that come or all until a timeout.
module _ {A : Type 0} where
  abbrev pub heard : Bool → List (Selected A) → List A
  heard continue_after [] = []
  heard continue_after (nothing_ready ∷ selects) = []
  heard continue_after (ready replies ∷ selects) =
      let later = heard continue_after selects in
      if continue_after then replies else replies ++ later

-- Reference: the scanner servers among the replies.
abbrev pub is_server : Reply → Bool
is_server r =
    str_eq r.entry_name expected_entry_type_name
    && ((r.rtype == recordtype_ptr) && contains r.ptr_name service_name)

abbrev pub servers : List Reply → List MdnsQuery
servers [] = []
servers (r ∷ replies) =
    let rest = servers replies in
    if is_server r then record { name = r.ptr_name; type = r.rtype } ∷ rest else rest

discover_callback_lem :
    (r : Reply) (replies : List Reply) (services : List MdnsQuery)
    → discover_callback r services ++ servers replies ≡ services ++ servers (r ∷ replies)
unfolding discover_callback
discover_callback_lem r replies services =
    elim (Bool-cases (str_eq r.entry_name expected_entry_type_name)) [
      | inr e ↦ rw e refl
      | inl e ↦
          elim (Bool-cases ((r.rtype == recordtype_ptr) && contains r.ptr_name service_name)) [
            | inr f ↦ rw (e, f) refl
            | inl f ↦ rw (e, f) (append_assoc services _ (servers replies))
          ]
    ]

discover_callbacks_lem :
    (replies : List Reply) (services : List MdnsQuery)
    → discover_callbacks replies services ≡ services ++ servers replies
unfolding discover_callbacks
discover_callbacks_lem [] services = sym (append-nil services)
discover_callbacks_lem (r ∷ replies) services =
    discover_callbacks_lem replies (discover_callback r services)
    ∙ discover_callback_lem r replies services

servers-append : (xs ys : List Reply) → servers (xs ++ ys) ≡ servers xs ++ servers ys
servers-append [] ys = refl
servers-append (r ∷ xs) ys = elim (Bool-cases (is_server r)) [
  | inl e ↦ rw (e, servers-append xs ys) refl
  | inr e ↦ rw (e, servers-append xs ys) refl
]

discover_loop_lem :
    (continue_after : Bool) (selects : List (Selected Reply)) (services : List MdnsQuery)
    → discover_loop continue_after selects services
      ≡ services ++ servers (heard continue_after selects)
unfolding discover_loop
discover_loop_lem c [] services = sym (append-nil services)
discover_loop_lem c (nothing_ready ∷ selects) services = sym (append-nil services)
discover_loop_lem true (ready replies ∷ selects) services = discover_callbacks_lem replies services
discover_loop_lem false (ready replies ∷ selects) services =
    discover_loop_lem false selects (discover_callbacks replies services)
    ∙ rw (discover_callbacks_lem replies services, servers-append replies (heard false selects))
        (append_assoc services (servers replies) (servers (heard false selects)))

discover_loop-heard :
    (continue_after : Bool) (selects : List (Selected Reply))
    → discover_loop continue_after selects [] ≡ servers (heard continue_after selects)
discover_loop-heard c selects = discover_loop_lem c selects []

query_all-append :
    (xs ys : List DnsRecord) (s : PartialQueryResult × List QueryResult)
    → query_all (xs ++ ys) s ≡ query_all ys (query_all xs s)
unfolding query_all
query_all-append [] ys s = refl
query_all-append (x ∷ xs) ys s = query_all-append xs ys (query_callback x s)

query_loop-heard :
    (continue_after : Bool) (selects : List (Selected DnsRecord))
    (s : PartialQueryResult × List QueryResult)
    → query_loop continue_after selects s ≡ query_all (heard continue_after selects) s
unfolding query_loop query_all
query_loop-heard c [] s = refl
query_loop-heard c (nothing_ready ∷ selects) s = refl
query_loop-heard true (ready records ∷ selects) s = refl
query_loop-heard false (ready records ∷ selects) s =
    query_loop-heard false selects (query_all records s)
    ∙ sym (query_all-append records (heard false selects) s)

-- Reference: the addresses for IPv4 in the answers that are heard, if a server is.
abbrev pub found : List MdnsQuery → List DnsRecord → List QueryResult
found [] records = []
found (service ∷ services) records = (query_all (without_ipv6 records) (no_partial, [])).1

query_results-found :
    (c : Bool) (services : List MdnsQuery) (query : List (Selected DnsRecord))
    → query_results c services query ≡ found services (heard c query)
query_results-found c [] query = refl
query_results-found c (service ∷ services) query =
    ap (λ (s : PartialQueryResult × List QueryResult). s.1)
      (query_loop-heard c query (no_partial, []))
    ∙ (query_all-without_ipv6 (heard c query)).0

-- The servers that a search finds are the IPv4 results of the answers that its query hears, if a
-- reply that its discovery hears names the service, and none otherwise. A loop that continues after
-- its first replies hears only those, another one all until a timeout or an error.
pub search-found :
    (continue_after_discover continue_after_query : Bool) (discovery : List (Selected Reply))
    (query : List (Selected DnsRecord))
    → search continue_after_discover continue_after_query discovery query
      ≡ found (servers (heard continue_after_discover discovery)) (heard continue_after_query query)
unfolding search
search-found c d discovery query =
    ap (λ services. query_results d services query) (discover_loop-heard c discovery)
    ∙ query_results-found d (servers (heard c discovery)) query
