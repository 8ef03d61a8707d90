-- ===== src/Mdns/Runs.antt =====
-- Concrete searches, and the theorems at them.
use sane_in_the_membrane.Mdns.Address.{dialed, split_at_colon, dialed-split_at_colon}
use sane_in_the_membrane.Common.Decimal.{digits, value_of}
use Prim.Native.String.{String}
use sane_in_the_membrane.Common.{
  ◌≡◌, refl, ◌≤◌, true, false, List, [], ◌∷◌, ◌++◌, ℕ, Option, some, none, length, arith,
}
use sane_in_the_membrane.Mdns.Query.{DnsRecord, srv, a_record, aaaa_record, query_all}
use sane_in_the_membrane.Mdns.Query.{ipv4}
use sane_in_the_membrane.Mdns.Replies.{
  Reply, recordtype_ptr, expected_entry_type_name, ready, search,
}
use sane_in_the_membrane.Mdns.Heard.{search-found}
use sane_in_the_membrane.Mdns.Worker.{
  Finder, sleeping, exited, destroy, moves, wakes_spuriously, undisturbed, turns, destroy-fate,
}

abbrev answers : List DnsRecord
answers = aaaa_record "fe80::1" ∷ srv 50051 ∷ a_record "10.0.0.2" ∷ []

-- Two servers, of which one answers a second later.
abbrev advertised : String → Reply
advertised name = record {
  entry_name = expected_entry_type_name;
  rtype = recordtype_ptr;
  ptr_name = name;
}

search-found_example :
    search true true
      (ready (advertised "a._sane_in_the_membrane_service._tcp.local." ∷ [])
        ∷ ready (advertised "b._sane_in_the_membrane_service._tcp.local." ∷ [])
        ∷ [])
      (ready answers ∷ [])
    ≡ record { address = "10.0.0.2"; port = 50051; address_type = ipv4 } ∷ []
unfolding query_all
search-found_example =
    search-found true true
      (ready (advertised "a._sane_in_the_membrane_service._tcp.local." ∷ [])
        ∷ ready (advertised "b._sane_in_the_membrane_service._tcp.local." ∷ [])
        ∷ [])
      (ready answers ∷ [])

abbrev idle_finder : Finder
idle_finder = record { stop = false; worker = sleeping; searches = 3 }

destroy-fate_example :
    ((turns (undisturbed 2) (destroy idle_finder)).worker ≡ exited)
    × ((turns (undisturbed 2 ++ (wakes_spuriously ∷ moves ∷ [])) (destroy idle_finder)).worker
        ≡ exited)
destroy-fate_example = destroy-fate 0 idle_finder

abbrev numeric_host : List ℕ
numeric_host = b'1' ∷ b'0' ∷ b'.' ∷ b'0' ∷ b'.' ∷ b'0' ∷ b'.' ∷ b'7' ∷ []

dialed-split_at_colon_example :
    (split_at_colon (dialed (some (numeric_host, b'0' ∷ [])) 50051)
      ≡ (numeric_host, digits 5 50051))
    × (split_at_colon (dialed none 50051) ≡ ([], digits 5 50051))
    × (value_of 0 (digits 5 50051) ≡ 50051)
    × ((info : Option (List ℕ × List ℕ)) → length (dialed info 50051) ≤ 261)
dialed-split_at_colon_example =
    dialed-split_at_colon numeric_host (b'0' ∷ []) 50051
      (refl, (refl, (refl, (refl, (refl, (refl, (refl, (refl, tt)))))))) (omega arith) (omega arith)
