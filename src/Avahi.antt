-- ===== src/Avahi.antt =====
-- Announcing the server on the local network: `CAvahiService` of
-- server/src/mDns/AvahiServiceRegistration.hpp. The avahi library is a parameter: what it answers
-- to a name that is added, and whether a commit succeeds. Its calls are recorded in order.
pub mod Collisions
mod Runs
use sane_in_the_membrane.Common.{
  ℕ, zero, suc, ◌+◌, Bool, true, false, not, List, [], ◌∷◌, ◌++◌, ltb, if◌then◌else◌,
}
use sane_in_the_membrane.Common.Exec.{Exec, ok, stuck}

-- The base name, or the base name with a number.
pub data ServiceName : Type 0 where
  base_service_name : ServiceName
  numbered : ℕ → ServiceName

pub data AddResult : Type 0 where
  added collision add_failed : AddResult

pub data AvahiCall : Type 0 where
  group_new group_reset group_commit simple_poll_quit : AvahiCall
  add_service : ServiceName → AvahiCall

pub data ClientState : Type 0 where
  client_running client_collision client_registering client_failure client_connecting : ClientState

pub data GroupState : Type 0 where
  group_established group_collision group_failure group_uncommitted group_registering : GroupState

-- `collision_count` is the static variable of `create_service`; `group_empty` is what the library
-- says of the group.
pub record AvahiService : Type 0 where
  pub collision_count : ℕ
  pub has_group : Bool
  pub group_empty : Bool
  pub service_name : ServiceName
  pub service_count : ℕ
  pub calls : List AvahiCall

abbrev pub avahi_call : AvahiCall → AvahiService → AvahiService
avahi_call c s = record s { calls = s.calls ++ (c ∷ []) }

abbrev pub shutdown : AvahiService → AvahiService
shutdown s = avahi_call simple_poll_quit s

abbrev pub new_group : AvahiService → AvahiService
new_group s =
    if s.has_group
    then s
    else avahi_call group_new (record s { has_group = true; group_empty = true })

abbrev pub reset_group : AvahiService → AvahiService
reset_group s = avahi_call group_reset (record s { group_empty = true })

unfoldable pub alternative_service_name : AvahiService → AvahiService
alternative_service_name s = record s {
  service_count = s.service_count + 1;
  service_name = numbered (s.service_count + 1);
}

module _ (add : ServiceName → AddResult) (commits : Bool) where
  -- What follows an addition that did not collide.
  abbrev pub after_add : AddResult → AvahiService → AvahiService
  after_add added s =
      let s₁ = avahi_call group_commit (record s { group_empty = false }) in
      if commits then s₁ else shutdown s₁
  after_add collision s = s
  after_add add_failed s = shutdown s

  -- The fuel counts the recursive calls.
  unfoldable pub create_service : ℕ → AvahiService → Exec AvahiService
  create_service zero s = stuck
  create_service (suc fuel) s =
      let s₁ = new_group s in
      let s₂ = avahi_call (add_service s₁.service_name) s₁ in
      let again =
        create_service fuel
          (reset_group (record s₂ { collision_count = s₂.collision_count + 1 })) in
      let tried = elim (add s₁.service_name) as (λ _. Exec AvahiService) [
        | collision ↦ again
        | added ↦ ok (after_add added s₂)
        | add_failed ↦ ok (after_add add_failed s₂)
      ] in
      if ltb 5 s.collision_count
      then ok (record s { collision_count = 0 })
      else if s₁.group_empty
      then tried
      else ok s₁

  unfoldable pub client_callback : ℕ → ClientState → AvahiService → Exec AvahiService
  unfolding create_service
  client_callback fuel client_running s = create_service fuel s
  client_callback fuel client_collision s = ok (if s.has_group then reset_group s else s)
  client_callback fuel client_registering s = ok (if s.has_group then reset_group s else s)
  client_callback fuel client_failure s = ok (shutdown s)
  client_callback fuel client_connecting s = ok s

  -- The group that calls back becomes the group of the service.
  unfoldable pub group_callback : ℕ → GroupState → AvahiService → Exec AvahiService
  unfolding create_service alternative_service_name
  group_callback fuel group_established s = ok (record s { has_group = true })
  group_callback fuel group_collision s =
      create_service fuel (reset_group (alternative_service_name (record s { has_group = true })))
  group_callback fuel group_failure s = ok (shutdown (record s { has_group = true }))
  group_callback fuel group_uncommitted s = ok (record s { has_group = true })
  group_callback fuel group_registering s = ok (record s { has_group = true })
