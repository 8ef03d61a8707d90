-- ===== src/Avahi/Collisions.antt =====
-- How often `create_service` of server/src/mDns/AvahiServiceRegistration.hpp tries a name.
use sane_in_the_membrane.Common.{
  ℕ, zero, suc, ◌+◌, ◌≤◌, ◌<◌, ◌≡◌, refl, ap, ◌∙◌, sym, Bool, true, false, List, [], ◌∷◌, ◌++◌, ltb,
  arith, replicate, Bool-cases, inl, inr, append-nil, append_assoc,
}
use sane_in_the_membrane.Common.Exec.{ok}
use sane_in_the_membrane.Avahi.{
  ServiceName, numbered, AddResult, added, collision, AvahiCall, add_service, group_new,
  group_reset, group_commit, simple_poll_quit, AvahiService, avahi_call, reset_group,
  create_service, after_add, group_callback, group_collision, alternative_service_name,
}

-- The names that were added, in order.
abbrev pub names : List AvahiCall → List ServiceName
names [] = []
names (add_service n ∷ calls) = n ∷ names calls
names (group_new ∷ calls) = names calls
names (group_reset ∷ calls) = names calls
names (group_commit ∷ calls) = names calls
names (simple_poll_quit ∷ calls) = names calls

names-append : (xs ys : List AvahiCall) → names (xs ++ ys) ≡ names xs ++ names ys
names-append [] ys = refl
names-append (add_service n ∷ xs) ys = ap (◌∷◌ n) (names-append xs ys)
names-append (group_new ∷ xs) ys = names-append xs ys
names-append (group_reset ∷ xs) ys = names-append xs ys
names-append (group_commit ∷ xs) ys = names-append xs ys
names-append (simple_poll_quit ∷ xs) ys = names-append xs ys

-- After `n` tries of a name that collides.
pub record Refused (n : ℕ) (s s' : AvahiService) : Type 0 where
  pub tried : names s'.calls ≡ names s.calls ++ replicate n s.service_name
  pub same_name : s'.service_name ≡ s.service_name
  pub empty : s'.group_empty ≡ true
  pub restarted : s'.collision_count ≡ 0

module _ (add : ServiceName → AddResult) (commits : Bool) where
  abbrev next : AvahiService → AvahiService
  next s =
      let s₂ = avahi_call (add_service s.service_name) s in
      reset_group (record s₂ { collision_count = s₂.collision_count + 1 })

  create_service-again :
      (fuel : ℕ) (s : AvahiService)
      → s.has_group ≡ true
      → s.group_empty ≡ true
      → add s.service_name ≡ collision
      → ltb 5 s.collision_count ≡ false
      → create_service add commits (suc fuel) s ≡ create_service add commits fuel (next s)
  unfolding create_service
  create_service-again fuel s g e c few = simp (g, e, c, few)

  names-next : (s : AvahiService) → names (next s).calls ≡ names s.calls ++ (s.service_name ∷ [])
  names-next s =
      names-append (s.calls ++ (add_service s.service_name ∷ [])) (group_reset ∷ [])
      ∙ append-nil (names (s.calls ++ (add_service s.service_name ∷ [])))
      ∙ names-append s.calls (add_service s.service_name ∷ [])

  create_service-full :
      (fuel : ℕ) (s : AvahiService)
      → ltb 5 s.collision_count ≡ true
      → create_service add commits (suc fuel) s ≡ ok (record s { collision_count = 0 })
  unfolding create_service
  create_service-full fuel s full = simp full

  -- A name that collides when it is added is tried again unchanged, until there were six collisions
  -- in all, and then given up: no other name is tried, and the next call starts to count anew. One
  -- unit of fuel for each try and one more are enough.
  pub create_service-Refused :
      (n fuel : ℕ) (s : AvahiService)
      → s.has_group ≡ true
      → s.group_empty ≡ true
      → add s.service_name ≡ collision
      → s.collision_count + n ≡ 6
      → n < fuel
      → (s' : AvahiService) × (create_service add commits fuel s ≡ ok s') × Refused n s s'
  create_service-Refused n zero s g e c count h = absurd (omega (arith, h))
  create_service-Refused zero (suc fuel) s g e c count h = (
    record s { collision_count = 0 },
    create_service-full fuel s (ground (arith, count)),
    record {
      tried = sym (append-nil (names s.calls));
      same_name = refl;
      empty = e;
      restarted = refl;
    },
  )
  create_service-Refused (suc n) (suc fuel) s g e c count h =
      let (s', run, r) =
        create_service-Refused n fuel (next s) g refl c (omega (arith, count)) (omega (arith, h)) in
      (
        s',
        create_service-again fuel s g e c (ground (arith, count)) ∙ run,
        record {
          tried =
              r.tried
              ∙ ap (λ xs. xs ++ replicate n s.service_name) (names-next s)
              ∙ append_assoc (names s.calls) (s.service_name ∷ []) (replicate n s.service_name);
          same_name = r.same_name;
          empty = r.empty;
          restarted = r.restarted;
        },
      )

  after_add-keeps :
      (s : AvahiService)
      → ((after_add add commits added s).service_name ≡ s.service_name)
        × (names (after_add add commits added s).calls ≡ names s.calls)
        × ((after_add add commits added s).group_empty ≡ false)
  after_add-keeps s =
      let committed = names-append s.calls (group_commit ∷ []) ∙ append-nil (names s.calls) in
      elim (Bool-cases commits) [
        | inl e ↦ rw e (refl, committed, refl)
        | inr e ↦ rw e (
          refl,
          names-append (s.calls ++ (group_commit ∷ [])) (simple_poll_quit ∷ [])
              ∙ append-nil (names (s.calls ++ (group_commit ∷ [])))
              ∙ committed,
          refl,
        )
      ]

  abbrev renamed : AvahiService → AvahiService
  renamed s = avahi_call (add_service (numbered (s.service_count + 1))) (
      reset_group (record s {
        has_group = true;
        service_count = s.service_count + 1;
        service_name = numbered (s.service_count + 1);
      }))

  -- A collision that the group reports, on the other hand, renames the service: the base name gets
  -- the next number, and that name is added and committed if the library accepts it.
  pub group_callback-renames :
      (fuel : ℕ) (s : AvahiService)
      → s.collision_count ≤ 5
      → add (numbered (s.service_count + 1)) ≡ added
      → (s' : AvahiService) × (group_callback add commits (suc fuel) group_collision s ≡ ok s')
        × (s'.service_name ≡ numbered (s.service_count + 1))
        × (names s'.calls ≡ names s.calls ++ (numbered (s.service_count + 1) ∷ []))
        × (s'.group_empty ≡ false)
  unfolding group_callback create_service alternative_service_name
  group_callback-renames fuel s few accepts =
      let count : ltb 5 s.collision_count ≡ false = ground (arith, few) in
      let (name_kept, calls_kept, full) = after_add-keeps (renamed s) in
      (
        after_add add commits added (renamed s),
        simp (count, accepts),
        name_kept,
        calls_kept
            ∙ names-append (s.calls ++ (group_reset ∷ []))
                (add_service (numbered (s.service_count + 1)) ∷ [])
            ∙ ap (λ xs. xs ++ (numbered (s.service_count + 1) ∷ []))
                (names-append s.calls (group_reset ∷ []) ∙ append-nil (names s.calls)),
        full,
      )
