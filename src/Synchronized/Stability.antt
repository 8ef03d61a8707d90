-- ===== src/Synchronized/Stability.antt =====
-- What a guard of a `UniqueAccess` (utils/src/SynchronizedAccess.hpp) protects.
use mathlib.Core.Path.{subst}
use sane_in_the_membrane.Common.{
  ℕ, zero, suc, ◌+◌, ◌≤◌, ◌≡◌, ◌≢◌, refl, sym, ap, ◌∙◌, Bool, true, false, List, [], ◌∷◌, Option,
  none, some, ◌==◌, get_elem?, get_elem?-set_ne, get_elem?-append_left, set, arith, Bool-cases, inl,
  inr,
}
use sane_in_the_membrane.Common.Exec.{ok, Ensures-ok, ok-injective, Returns, Returns-ok}
use sane_in_the_membrane.Synchronized.{
  LockType, unique_lock, shared_lock, AccessGuard, UniqueAccess, can_lock, is_owner, access_as,
  release_found, move_found, assign_found, write_via, write_as, Operation, access, shared_access,
  destroy, move, move_assign, write, assign, operate, operate_all,
}
use sane_in_the_membrane.Synchronized.Exclusion.{owned, owners, HasOwners, operate-HasOwners}

owned-le-owners :
    (type : LockType) (guards : List AccessGuard) (i : ℕ) (g : AccessGuard)
    → get_elem? guards i ≡ some g
    → owned type g.lock_type g.owns_lock ≤ owners type guards
owned-le-owners type [] i g e = cc
owned-le-owners type (x ∷ guards) zero g e = ground (arith, e)
owned-le-owners type (x ∷ guards) (suc i) g e = omega (arith, owned-le-owners type guards i g e)

owned-add-owned :
    (type : LockType) (guards : List AccessGuard) (i j : ℕ) (g h : AccessGuard)
    → i ≢ j
    → get_elem? guards i ≡ some g
    → get_elem? guards j ≡ some h
    → owned type g.lock_type g.owns_lock + owned type h.lock_type h.owns_lock ≤ owners type guards
owned-add-owned type [] i j g h n e e' = cc
owned-add-owned type (x ∷ guards) zero zero g h n e e' = absurd (n refl)
owned-add-owned type (x ∷ guards) zero (suc j) g h n e e' =
    ground (arith, e, owned-le-owners type guards j h e')
owned-add-owned type (x ∷ guards) (suc i) zero g h n e e' =
    ground (arith, e', owned-le-owners type guards i g e)
owned-add-owned type (x ∷ guards) (suc i) (suc j) g h n e e' =
    omega (arith, owned-add-owned type guards i j g h (λ s. n (ap suc s)) e e')

owned_one : (type : LockType) → owned type type true ≡ 1
owned_one unique_lock = refl
owned_one shared_lock = refl

owned_by :
    (type type' : LockType) (owns : Bool) → type' ≡ type → owns ≡ true → owned type type' owns ≡ 1
owned_by type type' owns t o = cc (t, o, owned_one type)

-- A thread that owns the mutex does not lock it again; an operation leaves the guard at `i` alone,
-- writes only through another guard that owns its lock, and does not assign to the object past the
-- mutex.
abbrev pub Respects : {T : Type 0} → ℕ → Operation T → UniqueAccess T → Type 0
Respects i (access t) u = is_owner t u.guards ≡ false
Respects i (shared_access t) u = is_owner t u.guards ≡ false
Respects i (destroy j) u = j ≢ i
Respects i (move j) u = j ≢ i
Respects i (move_assign j k) u = (j ≢ i) × (k ≢ i)
Respects i (write j v) u =
    (j ≢ i) × ((h : AccessGuard) → get_elem? u.guards j ≡ some h → h.owns_lock ≡ true)
Respects i (assign v) u = ⊥

-- So does each operation of a run, in the state that it meets.
abbrev pub RespectsAll : {T : Type 0} → ℕ → List (Operation T) → UniqueAccess T → Type 0
RespectsAll i [] u = Unit {0}
RespectsAll i (o ∷ operations) u =
    Respects i o u × ((u' : UniqueAccess _) → operate o u ≡ ok u' → RespectsAll i operations u')

pub RespectsAll-next :
    {T : Type 0} (operations : List (Operation T)) (i : ℕ) (o : Operation T) (u w : UniqueAccess T)
    → Respects i o u
    → operate o u ≡ ok w
    → RespectsAll i operations w
    → RespectsAll i (o ∷ operations) u
RespectsAll-next operations i o u w r e later =
    (r, λ u' e'. subst (RespectsAll i operations) (ok-injective (sym e ∙ e')) later)

set_other :
    (guards : List AccessGuard) (i j : ℕ) (g h : AccessGuard)
    → j ≢ i
    → get_elem? guards i ≡ some g
    → get_elem? (set guards j h) i ≡ some g
set_other guards i j g h n e = get_elem?-set_ne guards h n ∙ e

module _ {T : Type 0} (i : ℕ) (g : AccessGuard) where
  -- The guard is there, owns its lock, and the object is the one given.
  abbrev Keeps : T → UniqueAccess T → Type 0
  Keeps v u = (u.object ≡ v) × (get_elem? u.guards i ≡ some g)

  access-Keeps :
      (type : LockType) (t : ℕ) (v : T) (u : UniqueAccess T)
      → is_owner t u.guards ≡ false
      → Keeps v u
      → Returns (Keeps v) (access_as type t u)
  unfolding access_as
  access-Keeps type t v u e k =
      let new : AccessGuard = record { thread = t; lock_type = type; owns_lock = true } in
      elim (Bool-cases (can_lock type u.mutex)) [
        | inl c ↦ rw (e, c) (k.0, get_elem?-append_left u.guards (new ∷ []) i g k.1)
        | inr c ↦ rw (e, c) k
      ]

  release-Keeps :
      (found : Option AccessGuard) (j : ℕ) (v : T) (u : UniqueAccess T)
      → j ≢ i
      → Keeps v u
      → Keeps v (release_found found j u)
  release-Keeps none j v u n k = k
  release-Keeps (some h) j v u n k = (k.0, set_other u.guards i j g _ n k.1)

  move-Keeps :
      (found : Option AccessGuard) (j : ℕ) (v : T) (u : UniqueAccess T)
      → j ≢ i
      → Keeps v u
      → Keeps v (move_found found j u)
  move-Keeps none j v u n k = k
  move-Keeps (some h) j v u n k =
      (k.0, get_elem?-append_left _ (h ∷ []) i g (set_other u.guards i j g _ n k.1))

  assign-Keeps :
      (found found' : Option AccessGuard) (j l : ℕ) (v : T) (u : UniqueAccess T)
      → j ≢ i
      → l ≢ i
      → Keeps v u
      → Keeps v (assign_found found found' j l u)
  assign-Keeps none found' j l v u n m k = k
  assign-Keeps (some h) none j l v u n m k = k
  assign-Keeps (some h) (some h') j l v u n m k =
      (k.0, set_other _ i l g _ m (set_other u.guards i j g _ n k.1))

  -- A lock that is owned excludes the lock of a writer.
  no_writer :
      (type : LockType) (j : ℕ) (h : AccessGuard) (u : UniqueAccess T)
      → HasOwners u
      → get_elem? u.guards i ≡ some g
      → g.lock_type ≡ type
      → g.owns_lock ≡ true
      → j ≢ i
      → get_elem? u.guards j ≡ some h
      → h.lock_type ≡ unique_lock
      → h.owns_lock ≡ true
      → ⊥
  no_writer unique_lock j h u a k t owns n e t' o = ground (
    arith,
    a.alone,
    owned_by unique_lock _ _ t owns,
    owned_by unique_lock _ _ t' o,
    owned-add-owned unique_lock u.guards j i h g n e k,
  )
  no_writer shared_lock j h u a k t owns n e t' o = ground (
    arith,
    a.alone,
    a.together,
    a.apart,
    owned_by shared_lock _ _ t owns,
    owned_by unique_lock _ _ t' o,
    owned-le-owners unique_lock u.guards j h e,
    owned-le-owners shared_lock u.guards i g k,
  )

  module _ (owns : g.owns_lock ≡ true) where
    written :
        (type : LockType) (j : ℕ) (h : AccessGuard) (v w : T) (u : UniqueAccess T)
        → HasOwners u
        → Keeps v u
        → j ≢ i
        → get_elem? u.guards j ≡ some h
        → h.owns_lock ≡ true
        → h.lock_type ≡ type
        → Keeps v (write_as type w u)
    written shared_lock j h v w u a k n e o t = k
    written unique_lock j h v w u a k n e o t =
        absurd (no_writer g.lock_type j h u a k.1 refl owns n e t o)

    write-Keeps :
        (found : Option AccessGuard) (j : ℕ) (v w : T) (u : UniqueAccess T)
        → HasOwners u
        → Keeps v u
        → j ≢ i
        → get_elem? u.guards j ≡ found
        → ((h : AccessGuard) → get_elem? u.guards j ≡ some h → h.owns_lock ≡ true)
        → Keeps v (write_via found w u)
    write-Keeps none j v w u a k n e o = k
    write-Keeps (some h) j v w u a k n e o = written h.lock_type j h v w u a k n e (o h e) refl

    operate-Keeps :
        (o : Operation T) (v : T) (u : UniqueAccess T)
        → HasOwners u
        → Keeps v u
        → Respects i o u
        → Returns (Keeps v) (operate o u)
    unfolding operate
    operate-Keeps (access t) v u a k r = access-Keeps unique_lock t v u r k
    operate-Keeps (shared_access t) v u a k r = access-Keeps shared_lock t v u r k
    operate-Keeps (destroy j) v u a k r = release-Keeps (get_elem? u.guards j) j v u r k
    operate-Keeps (move j) v u a k r = move-Keeps (get_elem? u.guards j) j v u r k
    operate-Keeps (move_assign j l) v u a k r = elim (Bool-cases (j == l)) [
      | inl e ↦ rw e k
      | inr e ↦ rw e (assign-Keeps (get_elem? u.guards j) (get_elem? u.guards l) j l v u r.0 r.1 k)
    ]
    operate-Keeps (write j w) v u a k r =
        write-Keeps (get_elem? u.guards j) j v w u a k r.0 refl r.1
    operate-Keeps (assign w) v u a k r = absurd r

    run-Keeps :
        (operations : List (Operation T)) (v : T) (u : UniqueAccess T)
        → HasOwners u
        → Keeps v u
        → RespectsAll i operations u
        → Returns (Keeps v) (operate_all operations u)
    unfolding operate_all
    run-Keeps [] v u a k r = k
    run-Keeps (o ∷ operations) v u a k r =
        let (u', done, k') = Returns-ok (Keeps v) (operate o u) (operate-Keeps o v u a k r.0) in
        rw done (
          run-Keeps operations v u' (Ensures-ok HasOwners done (operate-HasOwners o u a)) k'
            (r.1 u' done))

-- While a guard owns its lock, in either mode, no other thread changes the object: if the mutex
-- agrees with its guards, no thread that owns the mutex locks it again, no operation touches that
-- guard, others write only through guards that own their locks, and the object is not assigned to
-- past the mutex, then the operations all return, and the object and the guard are as before.
pub operate_all-object :
    {T : Type 0} (operations : List (Operation T)) (u : UniqueAccess T) (i : ℕ) (g : AccessGuard)
    → HasOwners u
    → get_elem? u.guards i ≡ some g
    → g.owns_lock ≡ true
    → RespectsAll i operations u
    → (u' : UniqueAccess T) × (operate_all operations u ≡ ok u')
      × (u'.object ≡ u.object)
      × (get_elem? u'.guards i ≡ some g)
operate_all-object operations u i g a e owns r =
    let (u', done, k) =
      Returns-ok (Keeps i g u.object) (operate_all operations u)
        (run-Keeps i g owns operations u.object u a (refl, e) r) in
    (u', done, k.0, k.1)
