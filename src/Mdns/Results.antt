-- ===== src/Mdns/Results.antt =====
-- What the answers of gui-app/src/Utils/mDNS/mDns.cpp hold.
use Prim.Native.String.{String}
use sane_in_the_membrane.Common.{
  ℕ, ◌≡◌, refl, List, [], ◌∷◌, ◌++◌, Option, none, some, length, arith, ◌≤◌, ◌+◌, suc,
  length-append,
}
use sane_in_the_membrane.Mdns.Query.{
  QueryResult, PartialQueryResult, no_partial, build_ipv4, DnsRecord, srv, a_record, aaaa_record,
  other_record, query_callback, query_all,
}

-- Reference: the answers without those for IPv6.
abbrev pub without_ipv6 : List DnsRecord → List DnsRecord
without_ipv6 [] = []
without_ipv6 (srv n ∷ records) = srv n ∷ without_ipv6 records
without_ipv6 (a_record a ∷ records) = a_record a ∷ without_ipv6 records
without_ipv6 (aaaa_record a ∷ records) = without_ipv6 records
without_ipv6 (other_record ∷ records) = other_record ∷ without_ipv6 records

-- Nothing is pending that could be built.
IsPending : Option String → Option ℕ → Type 0
IsPending none port = Unit {0}
IsPending (some a) none = Unit {0}
IsPending (some a) (some n) = ⊥

-- How many addresses were answered, and how many ports.
abbrev pub addresses : List DnsRecord → ℕ
addresses [] = 0
addresses (a_record a ∷ records) = suc (addresses records)
addresses (srv n ∷ records) = addresses records
addresses (aaaa_record a ∷ records) = addresses records
addresses (other_record ∷ records) = addresses records

abbrev partial : Option String → Option String → Option ℕ → PartialQueryResult
partial v4 v6 port = record { ip_v4_addr = v4; ip_v6_addr = v6; port = port }

query_all-ignores :
    (records : List DnsRecord) (v4 : Option String) (port : Option ℕ) (v6 v6' : Option String)
    (results : List QueryResult)
    → IsPending v4 port
    → (query_all records (partial v4 v6 port, results)).1
      ≡ (query_all (without_ipv6 records) (partial v4 v6' port, results)).1
unfolding query_all query_callback build_ipv4 IsPending
query_all-ignores [] v4 port v6 v6' results h = refl
query_all-ignores (srv n ∷ records) none port v6 v6' results h =
    query_all-ignores records none (some n) v6 v6' results tt
query_all-ignores (srv n ∷ records) (some a) port v6 v6' results h =
    query_all-ignores records none none none none _ tt
query_all-ignores (a_record a ∷ records) v4 none v6 v6' results h =
    query_all-ignores records (some a) none v6 v6' results tt
query_all-ignores (a_record a ∷ records) v4 (some n) v6 v6' results h =
    query_all-ignores records none none none none _ tt
query_all-ignores (aaaa_record a ∷ records) none port v6 v6' results h =
    query_all-ignores records none port (some a) v6' results tt
query_all-ignores (aaaa_record a ∷ records) (some b) none v6 v6' results h =
    query_all-ignores records (some b) none (some a) v6' results tt
query_all-ignores (aaaa_record a ∷ records) (some b) (some n) v6 v6' results h = absurd h
query_all-ignores (other_record ∷ records) none port v6 v6' results h =
    query_all-ignores records none port v6 v6' results tt
query_all-ignores (other_record ∷ records) (some b) none v6 v6' results h =
    query_all-ignores records (some b) none v6 v6' results tt
query_all-ignores (other_record ∷ records) (some b) (some n) v6 v6' results h = absurd h

-- One for an address that waits for a port.
waiting : Option String → ℕ
waiting none = 0
waiting (some a) = 1

length-query_all :
    (records : List DnsRecord) (v4 : Option String) (port : Option ℕ) (v6 : Option String)
    (results : List QueryResult)
    → IsPending v4 port
    → length (query_all records (partial v4 v6 port, results)).1
      ≤ length results + waiting v4 + addresses records
unfolding query_all query_callback build_ipv4 IsPending waiting
length-query_all [] v4 port v6 results h = omega arith
length-query_all (srv n ∷ records) none port v6 results h =
    length-query_all records none (some n) v6 results tt
length-query_all (srv n ∷ records) (some a) port v6 results h =
    omega
      (arith, length-query_all records none none none (results ++ _) tt, length-append results _)
length-query_all (a_record a ∷ records) v4 none v6 results h =
    omega (arith, length-query_all records (some a) none v6 results tt)
length-query_all (a_record a ∷ records) v4 (some n) v6 results h =
    omega
      (arith, length-query_all records none none none (results ++ _) tt, length-append results _)
length-query_all (aaaa_record a ∷ records) none port v6 results h =
    length-query_all records none port (some a) results tt
length-query_all (aaaa_record a ∷ records) (some b) none v6 results h =
    length-query_all records (some b) none (some a) results tt
length-query_all (aaaa_record a ∷ records) (some b) (some n) v6 results h = absurd h
length-query_all (other_record ∷ records) none port v6 results h =
    length-query_all records none port v6 results tt
length-query_all (other_record ∷ records) (some b) none v6 results h =
    length-query_all records (some b) none v6 results tt
length-query_all (other_record ∷ records) (some b) (some n) v6 results h = absurd h

-- Answers for IPv6 never change the results of a query, so a server that has no IPv4 address is not
-- found, and there are at most as many results as there were IPv4 addresses in the answers.
pub query_all-without_ipv6 :
    (records : List DnsRecord)
    → ((query_all records (no_partial, [])).1
        ≡ (query_all (without_ipv6 records) (no_partial, [])).1)
      × (length (query_all records (no_partial, [])).1 ≤ addresses records)
unfolding IsPending waiting
query_all-without_ipv6 records = (
  query_all-ignores records none none none none [] tt,
  omega (arith, length-query_all records none none none [] tt),
)
