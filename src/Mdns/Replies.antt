-- ===== src/Mdns/Replies.antt =====
-- What a search reads: `discover_callback`, and the loops of `discover_services` and
-- `send_mdns_query` over `select`, of gui-app/src/Utils/mDNS/mDns.cpp. The replies are those that the
-- mdns library parsed, in the order of the sockets.
use Prim.Native.String.{String, find, len}
use text.Mathlib.Text.{◌==◌ as str_eq}
use sane_in_the_membrane.Common.{ℕ, Bool, List, [], ◌∷◌, ◌++◌, ◌==◌, ◌&&◌, leb, if◌then◌else◌}
use sane_in_the_membrane.Mdns.Query.{
  PartialQueryResult, QueryResult, no_partial, DnsRecord, query_all,
}

-- `entry_name` is the name of the entry, `ptr_name` the record read as a PTR record.
pub record Reply : Type 0 where
  pub entry_name : String
  pub rtype : ℕ
  pub ptr_name : String

-- `SMDNSQuery`.
pub record MdnsQuery : Type 0 where
  pub name : String
  pub type : ℕ

abbrev pub recordtype_ptr : ℕ
recordtype_ptr = 12

abbrev pub expected_entry_type_name : String
expected_entry_type_name = "_services._dns-sd._udp.local."

abbrev pub service_name : String
service_name = "_sane_in_the_membrane_service"

-- `std::string::contains`; `find` is past the end where there is none.
abbrev pub contains : String → String → Bool
contains s pattern = leb (find s pattern) (len s)

unfoldable pub discover_callback : Reply → List MdnsQuery → List MdnsQuery
discover_callback r services =
    if str_eq r.entry_name expected_entry_type_name
    then (if (r.rtype == recordtype_ptr) && contains r.ptr_name service_name
        then services ++ (record { name = r.ptr_name; type = r.rtype } ∷ [])
        else services)
    else services

unfoldable pub discover_callbacks : List Reply → List MdnsQuery → List MdnsQuery
unfolding discover_callback
discover_callbacks [] services = services
discover_callbacks (r ∷ replies) services =
    discover_callbacks replies (discover_callback r services)

-- What `select` says: an error or a timeout, or that something can be read, with what is read.
pub data Selected (A : Type 0) : Type 0 where
  nothing_ready : Selected A
  ready : List A → Selected A

-- The loop of `discover_services`, with `m_options.continue_after_discover`.
unfoldable pub discover_loop : Bool → List (Selected Reply) → List MdnsQuery → List MdnsQuery
unfolding discover_callbacks
discover_loop continue_after [] services = services
discover_loop continue_after (nothing_ready ∷ selects) services = services
discover_loop continue_after (ready replies ∷ selects) services =
    let now = discover_callbacks replies services in
    let later = discover_loop continue_after selects now in if continue_after then now else later

-- The loop of `send_mdns_query`, with `m_options.continue_after_query`.
unfoldable pub query_loop :
    Bool
    → List (Selected DnsRecord)
    → PartialQueryResult × List QueryResult
    → PartialQueryResult × List QueryResult
unfolding query_all
query_loop continue_after [] s = s
query_loop continue_after (nothing_ready ∷ selects) s = s
query_loop continue_after (ready records ∷ selects) s =
    let now = query_all records s in
    let later = query_loop continue_after selects now in if continue_after then now else later

-- A query is sent only if a server was advertised.
abbrev pub query_results : Bool → List MdnsQuery → List (Selected DnsRecord) → List QueryResult
query_results continue_after [] selects = []
query_results continue_after (service ∷ services) selects =
    (query_loop continue_after selects (no_partial, [])).1

-- A discovery and the query after it.
unfoldable pub search :
    Bool → Bool → List (Selected Reply) → List (Selected DnsRecord) → List QueryResult
unfolding discover_loop query_loop
search continue_after_discover continue_after_query discovery query =
    query_results continue_after_query (discover_loop continue_after_discover discovery []) query
