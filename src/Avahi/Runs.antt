-- ===== src/Avahi/Runs.antt =====
-- Concrete registrations, and the theorems at them.
use sane_in_the_membrane.Common.{◌≡◌, refl, true, [], arith}
use sane_in_the_membrane.Common.Exec.{ok}
use sane_in_the_membrane.Avahi.{
  ServiceName, base_service_name, numbered, AddResult, added, collision, AvahiService,
  create_service,
}
use sane_in_the_membrane.Avahi.Collisions.{Refused, create_service-Refused}

-- The base name is taken on this network.
abbrev taken : ServiceName → AddResult
taken base_service_name = collision
taken (numbered n) = added

abbrev with_group : AvahiService
with_group = record {
  collision_count = 0;
  has_group = true;
  group_empty = true;
  service_name = base_service_name;
  service_count = 0;
  calls = [];
}

create_service-Refused_example :
    (s' : AvahiService) × (create_service taken true 7 with_group ≡ ok s') × Refused 6 with_group s'
create_service-Refused_example =
    create_service-Refused taken true 6 7 with_group refl refl refl (omega arith) (omega arith)
