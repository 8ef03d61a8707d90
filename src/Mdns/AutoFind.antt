-- ===== src/Mdns/AutoFind.antt =====
-- One search for a server: `CMDnsAutoFinder::discover_inner` of
-- gui-app/src/Utils/mDNS/mDnsAutoFind.cpp and the slot that its result reaches.
use Prim.Native.String.{String}
use sane_in_the_membrane.Common.{
  ℕ, ◌≡◌, refl, ap, Bool, false, List, [], ◌∷◌, Option, none, some, if◌then◌else◌,
}
use sane_in_the_membrane.Common.Exec.{Exec, ok, fault, ◌>>=◌, Expected, value, unexpected}
use sane_in_the_membrane.Mdns.Query.{QueryResult, DnsRecord, no_partial, query_all, query_services}
use sane_in_the_membrane.Mdns.Results.{without_ipv6, query_all-without_ipv6}

pub data FinderSignal : Type 0 where
  sig_discovering : FinderSignal
  sig_mdns_discovered : List QueryResult → FinderSignal
  sig_discover_failed sig_query_failed : String → FinderSignal

-- After the first guard. A failed query asks the discovery, which succeeded, for its error: that is
-- undefined.
abbrev pub after_query : Expected (List QueryResult) String → Exec (List FinderSignal × Bool)
after_query (unexpected e) = fault
after_query (value results) = ok (sig_discovering ∷ sig_mdns_discovered results ∷ [], false)

-- What discovery and query return, and whether an interrupt is pending at the first guard; the
-- signals, and whether one is pending afterwards.
unfoldable pub discover_inner :
    Expected (Unit {0}) String
    → Expected (List QueryResult) String
    → Bool
    → Exec (List FinderSignal × Bool)
discover_inner (unexpected e) queried interrupted =
    ok (sig_discovering ∷ sig_discover_failed e ∷ [], interrupted)
discover_inner (value u) queried interrupted =
    let next = after_query queried in if interrupted then ok (sig_discovering ∷ [], false) else next

-- `discover_services` fails without sockets.
abbrev pub discover_services : List ℕ → Expected (Unit {0}) String
discover_services [] = unexpected "Failed to open any client sockets"
discover_services (socket ∷ sockets) = value tt

-- The channel is changed to the first result.
abbrev pub new_channel : List QueryResult → Option (String × ℕ)
new_channel [] = none
new_channel (r ∷ results) = some (r.address, r.port)

-- Reference: how a search ends, from the sockets of its discovery and those of its query.
abbrev pub outcome : List ℕ → List ℕ → List String → List DnsRecord → Exec (List FinderSignal)
outcome [] query_sockets services records =
    ok (sig_discovering ∷ sig_discover_failed "Failed to open any client sockets" ∷ [])
outcome (socket ∷ sockets) query_sockets [] records =
    ok (sig_discovering ∷ sig_mdns_discovered [] ∷ [])
outcome (socket ∷ sockets) [] (service ∷ services) records = fault
outcome (socket ∷ sockets) (query_socket ∷ query_sockets) (service ∷ services) records = ok (
    sig_discovering
    ∷ sig_mdns_discovered (query_all (without_ipv6 records) (no_partial, [])).1
    ∷ [])

-- A search that is not interrupted signals that it runs and then how it ended: a failure without
-- sockets for the discovery, no server if none was advertised, and the answers for IPv4 otherwise.
-- If the query that an advertised server leads to gets no sockets, there is no such signal: the
-- search takes the error of the discovery, which has none.
pub discover_inner-outcome :
    (sockets query_sockets : List ℕ) (services : List String) (records : List DnsRecord)
    → discover_inner
        (discover_services sockets)
        (query_services services query_sockets records)
        false
      ≡ (outcome sockets query_sockets services records >>= λ signals. ok (signals, false))
unfolding discover_inner query_services
discover_inner-outcome [] query_sockets services records = refl
discover_inner-outcome (socket ∷ sockets) query_sockets [] records = refl
discover_inner-outcome (socket ∷ sockets) [] (service ∷ services) records = refl
discover_inner-outcome (socket ∷ sockets) (q ∷ query_sockets) (service ∷ services) records =
    ap (λ results. ok (sig_discovering ∷ sig_mdns_discovered results ∷ [], false))
      (query_all-without_ipv6 records).0
