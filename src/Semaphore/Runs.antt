-- ===== src/Semaphore/Runs.antt =====
-- Concrete searches, and the theorems at them.
use sane_in_the_membrane.Common.{◌≡◌, refl, false, [], ◌∷◌}
use sane_in_the_membrane.Common.Exec.{ok, fault}
use sane_in_the_membrane.Mdns.Query.{srv, a_record, query_all, query_services}
use sane_in_the_membrane.Mdns.AutoFind.{discover_inner, discover_services}
use sane_in_the_membrane.Semaphore.{green, new_semaphore, show, connected_message, on_finder_all}
use sane_in_the_membrane.Semaphore.Searches.{shown_by, discover_inner-displayed}

-- A server is found.
discover_inner-displayed_example :
    shown_by
      (discover_inner
        (discover_services (3 ∷ []))
        (query_services ("sitm" ∷ []) (4 ∷ []) (a_record "10.0.0.2" ∷ srv 50051 ∷ []))
        false)
      new_semaphore
    ≡ ok (show green connected_message new_semaphore)
unfolding query_all
discover_inner-displayed_example =
    discover_inner-displayed false (3 ∷ []) (4 ∷ []) ("sitm" ∷ [])
      (a_record "10.0.0.2" ∷ srv 50051 ∷ []) new_semaphore

-- The first search of the program finds none.
first_search :
    shown_by
      (discover_inner (discover_services (3 ∷ [])) (query_services [] (4 ∷ []) []) false)
      new_semaphore
    ≡ fault
unfolding discover_inner query_services on_finder_all
first_search = refl
