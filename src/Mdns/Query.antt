-- ===== src/Mdns/Query.antt =====
-- The answers to queries: `CPartialQueryResult`, `query_callback` and `query_services` of
-- gui-app/src/Utils/mDNS/mDns.cpp. A record is what the mdns library parsed.
use Prim.Native.String.{String}
use sane_in_the_membrane.Common.{ℕ, List, [], ◌∷◌, ◌++◌, Option, none, some}
use sane_in_the_membrane.Common.Exec.{Expected, value, unexpected}

pub data AddressType : Type 0 where
  ipv4 ipv6 : AddressType

pub record QueryResult : Type 0 where
  pub address : String
  pub port : ℕ
  pub address_type : AddressType

pub record PartialQueryResult : Type 0 where
  pub ip_v4_addr : Option String
  pub ip_v6_addr : Option String
  pub port : Option ℕ

abbrev pub no_partial : PartialQueryResult
no_partial = record { ip_v4_addr = none; ip_v6_addr = none; port = none }

abbrev pub set_ipv4 : String → PartialQueryResult → PartialQueryResult
set_ipv4 a p = record p { ip_v4_addr = some a }

abbrev pub set_ipv6 : String → PartialQueryResult → PartialQueryResult
set_ipv6 a p = record p { ip_v6_addr = some a }

abbrev pub set_port : ℕ → PartialQueryResult → PartialQueryResult
set_port n p = record p { port = some n }

-- The result, and what is left; a result resets everything.
abbrev pub build :
    AddressType
    → Option String
    → Option ℕ
    → PartialQueryResult
    → Option QueryResult × PartialQueryResult
build t none port p = (none, p)
build t (some a) none p = (none, p)
build t (some a) (some n) p =
    (some (record { address = a; port = n; address_type = t }), no_partial)

unfoldable pub build_ipv4 : PartialQueryResult → Option QueryResult × PartialQueryResult
build_ipv4 p = build ipv4 p.ip_v4_addr p.port p

unfoldable pub build_ipv6 : PartialQueryResult → Option QueryResult × PartialQueryResult
build_ipv6 p = build ipv6 p.ip_v6_addr p.port p

pub data DnsRecord : Type 0 where
  srv : ℕ → DnsRecord
  a_record aaaa_record : String → DnsRecord
  other_record : DnsRecord

abbrev pub note_record : DnsRecord → PartialQueryResult → PartialQueryResult
note_record (srv n) p = set_port n p
note_record (a_record a) p = set_ipv4 a p
note_record (aaaa_record a) p = set_ipv6 a p
note_record other_record p = p

abbrev pub push_result : Option QueryResult → List QueryResult → List QueryResult
push_result none results = results
push_result (some r) results = results ++ (r ∷ [])

unfoldable pub query_callback :
    DnsRecord → PartialQueryResult × List QueryResult → PartialQueryResult × List QueryResult
unfolding build_ipv4
query_callback record_read (p, results) =
    let (query_addr, p') = build_ipv4 (note_record record_read p) in
    (p', push_result query_addr results)

-- The records of one query, in the order in which the library reads them.
unfoldable pub query_all :
    List DnsRecord → PartialQueryResult × List QueryResult → PartialQueryResult × List QueryResult
unfolding query_callback
query_all [] s = s
query_all (r ∷ records) s = query_all records (query_callback r s)

-- `query_services`: nothing is sent if no service was advertised, and a query fails without sockets.
unfoldable pub query_services :
    List String → List ℕ → List DnsRecord → Expected (List QueryResult) String
unfolding query_all
query_services [] sockets records = value []
query_services (service ∷ services) [] records = unexpected "Failed to open any client sockets"
query_services (service ∷ services) (socket ∷ sockets) records =
    value (query_all records (no_partial, [])).1
