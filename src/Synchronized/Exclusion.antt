-- ===== src/Synchronized/Exclusion.antt =====
-- Who owns the mutex of a `UniqueAccess` (utils/src/SynchronizedAccess.hpp).
use sane_in_the_membrane.Common.{
  ◌↔◌, ℕ, zero, suc, ◌+◌, ◌≤◌, ◌≡◌, refl, ◌∙◌, Bool, true, false, List, [], ◌∷◌, ◌++◌, Option, none,
  some, ◌==◌, ==_iff, if◌then◌else◌, get_elem?, get_elem?-set_ne, set, ◌≢◌, arith, Bool-cases, inl,
  inr,
}
use sane_in_the_membrane.Common.Exec.{ok, Ensures, Ensures-bind, Ensures-ok}
use sane_in_the_membrane.Synchronized.{
  LockType, unique_lock, shared_lock, SharedMutex, AccessGuard, UniqueAccess, new_access, can_lock,
  unlock, release_lock, access_as, release_found, move_found, assign_found, write_via, write_as,
  Operation, access, shared_access, destroy, move, move_assign, write, assign, operate, operate_all,
}

-- 1 for a guard that owns the mutex by a lock of the type given.
abbrev pub owned : LockType → LockType → Bool → ℕ
owned unique_lock unique_lock owns = if owns then 1 else 0
owned unique_lock shared_lock owns = 0
owned shared_lock unique_lock owns = 0
owned shared_lock shared_lock owns = if owns then 1 else 0

-- How many guards own the mutex by locks of a type.
abbrev pub owners : LockType → List AccessGuard → ℕ
owners type [] = 0
owners type (g ∷ guards) = owned type g.lock_type g.owns_lock + owners type guards

owners-append :
    (type : LockType) (xs ys : List AccessGuard)
    → owners type (xs ++ ys) ≡ owners type xs + owners type ys
owners-append type [] ys = omega arith
owners-append type (g ∷ xs) ys = omega (arith, owners-append type xs ys)

owners-set :
    (type : LockType) (guards : List AccessGuard) (i : ℕ) (g h : AccessGuard)
    → get_elem? guards i ≡ some g
    → owners type (set guards i h) + owned type g.lock_type g.owns_lock
      ≡ owners type guards + owned type h.lock_type h.owns_lock
owners-set type [] i g h e = cc
owners-set type (x ∷ guards) zero g h e = ground (arith, e)
owners-set type (x ∷ guards) (suc i) g h e = omega (arith, owners-set type guards i g h e)

-- The mutex counts its owners, and one that owns it alone is alone.
pub record Agrees (m : SharedMutex) (guards : List AccessGuard) : Type 0 where
  pub alone : owners unique_lock guards ≡ (if m.locked then 1 else 0)
  pub together : owners shared_lock guards ≡ m.readers
  pub apart : m.locked ≡ true → m.readers ≡ 0

not_owned : (type type' : LockType) → owned type type' false ≡ 0
not_owned unique_lock unique_lock = refl
not_owned unique_lock shared_lock = refl
not_owned shared_lock unique_lock = refl
not_owned shared_lock shared_lock = refl

abbrev given_up : AccessGuard → AccessGuard
given_up g = record g { owns_lock = false }

module _ {T : Type 0} (u : UniqueAccess T) (a : Agrees u.mutex u.guards) where
  access-Agrees :
      (type : LockType) (t : ℕ) → Ensures (λ u'. Agrees u'.mutex u'.guards) (access_as type t u)
  unfolding access_as
  access-Agrees unique_lock t =
      let g : AccessGuard = record { thread = t; lock_type = unique_lock; owns_lock = true } in
      ground (
        arith,
        a.alone,
        a.together,
        a.apart,
        owners-append unique_lock u.guards (g ∷ []),
        owners-append shared_lock u.guards (g ∷ []),
      )
  access-Agrees shared_lock t =
      let g : AccessGuard = record { thread = t; lock_type = shared_lock; owns_lock = true } in
      ground (
        arith,
        a.alone,
        a.together,
        a.apart,
        owners-append unique_lock u.guards (g ∷ []),
        owners-append shared_lock u.guards (g ∷ []),
      )

  release_as :
      (type : LockType) (owns : Bool) (guards : List AccessGuard)
      → owners unique_lock guards + owned unique_lock type owns ≡ owners unique_lock u.guards
      → owners shared_lock guards + owned shared_lock type owns ≡ owners shared_lock u.guards
      → Agrees (if owns then unlock type u.mutex else u.mutex) guards
  release_as unique_lock true guards p q = ground (arith, a.alone, a.together, a.apart)
  release_as unique_lock false guards p q = ground (arith, a.alone, a.together, a.apart)
  release_as shared_lock true guards p q = ground (arith, a.alone, a.together, a.apart)
  release_as shared_lock false guards p q = ground (arith, a.alone, a.together, a.apart)

  owners-given_up :
      (type : LockType) (i : ℕ) (g : AccessGuard)
      → get_elem? u.guards i ≡ some g
      → owners type (set u.guards i (given_up g)) + owned type g.lock_type g.owns_lock
        ≡ owners type u.guards
  owners-given_up type i g e =
      omega (arith, owners-set type u.guards i g (given_up g) e, not_owned type g.lock_type)

  release_found-Agrees :
      (g : AccessGuard) (i : ℕ)
      → get_elem? u.guards i ≡ some g
      → Agrees (release_lock g u.mutex) (set u.guards i (given_up g))
  release_found-Agrees g i e =
      release_as g.lock_type g.owns_lock (set u.guards i (given_up g))
        (owners-given_up unique_lock i g e) (owners-given_up shared_lock i g e)

  owners-moved :
      (type : LockType) (i : ℕ) (g : AccessGuard)
      → get_elem? u.guards i ≡ some g
      → owners type (set u.guards i (given_up g) ++ (g ∷ [])) ≡ owners type u.guards
  owners-moved type i g e =
      omega (
        arith,
        owners-given_up type i g e,
        owners-append type (set u.guards i (given_up g)) (g ∷ []),
      )

  owners-assigned :
      (type : LockType) (i j : ℕ) (g h : AccessGuard)
      → i ≢ j
      → get_elem? u.guards i ≡ some g
      → get_elem? u.guards j ≡ some h
      → owners type (set (set u.guards i h) j (given_up h))
        ≡ owners type (set u.guards i (given_up g))
  owners-assigned type i j g h n e e' = omega (
    arith,
    owners-given_up type i g e,
    owners-set type u.guards i g h e,
    owners-set type (set u.guards i h) j h (given_up h) (get_elem?-set_ne u.guards h n ∙ e'),
    not_owned type h.lock_type,
  )

Agrees-owners :
    (m : SharedMutex) (xs ys : List AccessGuard)
    → ((type : LockType) → owners type ys ≡ owners type xs)
    → Agrees m xs
    → Agrees m ys
Agrees-owners m xs ys same a = record {
  alone = same unique_lock ∙ a.alone;
  together = same shared_lock ∙ a.together;
  apart = a.apart;
}

module _ {T : Type 0} where
  abbrev pub HasOwners : UniqueAccess T → Type 0
  HasOwners u = Agrees u.mutex u.guards

  release-HasOwners :
      (found : Option AccessGuard) (i : ℕ) (u : UniqueAccess T)
      → get_elem? u.guards i ≡ found
      → HasOwners u
      → HasOwners (release_found found i u)
  release-HasOwners none i u e a = a
  release-HasOwners (some g) i u e a = release_found-Agrees u a g i e

  move-HasOwners :
      (found : Option AccessGuard) (i : ℕ) (u : UniqueAccess T)
      → get_elem? u.guards i ≡ found
      → HasOwners u
      → HasOwners (move_found found i u)
  move-HasOwners none i u e a = a
  move-HasOwners (some g) i u e a =
      Agrees-owners u.mutex u.guards _ (λ type. owners-moved u a type i g e) a

  assign-HasOwners :
      (found found' : Option AccessGuard) (i j : ℕ) (u : UniqueAccess T)
      → i ≢ j
      → get_elem? u.guards i ≡ found
      → get_elem? u.guards j ≡ found'
      → HasOwners u
      → HasOwners (assign_found found found' i j u)
  assign-HasOwners none found' i j u n e e' a = a
  assign-HasOwners (some g) none i j u n e e' a = a
  assign-HasOwners (some g) (some h) i j u n e e' a =
      Agrees-owners _ (set u.guards i (given_up g)) _
        (λ type. owners-assigned u a type i j g h n e e') (release_found-Agrees u a g i e)

  write-HasOwners :
      (type : LockType) (v : T) (u : UniqueAccess T) → HasOwners u → HasOwners (write_as type v u)
  write-HasOwners unique_lock v u a = a
  write-HasOwners shared_lock v u a = a

  via-HasOwners :
      (found : Option AccessGuard) (v : T) (u : UniqueAccess T)
      → HasOwners u
      → HasOwners (write_via found v u)
  via-HasOwners none v u a = a
  via-HasOwners (some g) v u a = write-HasOwners g.lock_type v u a

  pub operate-HasOwners :
      (o : Operation T) (u : UniqueAccess T) → HasOwners u → Ensures HasOwners (operate o u)
  unfolding operate
  operate-HasOwners (access t) u a = access-Agrees u a unique_lock t
  operate-HasOwners (shared_access t) u a = access-Agrees u a shared_lock t
  operate-HasOwners (destroy i) u a = release-HasOwners (get_elem? u.guards i) i u refl a
  operate-HasOwners (move i) u a = move-HasOwners (get_elem? u.guards i) i u refl a
  operate-HasOwners (move_assign i j) u a = elim (Bool-cases (i == j)) [
    | inl e ↦ rw e a
    | inr e ↦ rw e (
        assign-HasOwners (get_elem? u.guards i) (get_elem? u.guards j) i j u
          (λ same. cc (e, (==_iff i j).1 same)) refl refl a)
  ]
  operate-HasOwners (write i v) u a = via-HasOwners (get_elem? u.guards i) v u a
  operate-HasOwners (assign v) u a = a

  pub operate_all-HasOwners :
      (operations : List (Operation T)) (u : UniqueAccess T)
      → HasOwners u
      → Ensures HasOwners (operate_all operations u)
  unfolding operate_all
  operate_all-HasOwners [] u a = a
  operate_all-HasOwners (o ∷ operations) u a =
      Ensures-bind HasOwners (operate o u) _ (operate-HasOwners o u a)
        (λ u' a'. operate_all-HasOwners operations u' a')

-- From a new `UniqueAccess`, after operations that did not lock a mutex twice in one thread: at most
-- one guard owns the mutex alone, then no guard shares it, and the mutex is free just when no guard
-- owns it.
pub operate_all-owners :
    {T : Type 0} (operations : List (Operation T)) (v : T) (u : UniqueAccess T)
    → operate_all operations (new_access v) ≡ ok u
    → (owners unique_lock u.guards ≤ 1)
      × (owners unique_lock u.guards ≡ 1 → owners shared_lock u.guards ≡ 0)
      × (can_lock unique_lock u.mutex ≡ true
          ↔ owners unique_lock u.guards + owners shared_lock u.guards ≡ 0)
operate_all-owners operations v u e =
    let a = Ensures-ok HasOwners e (
      operate_all-HasOwners operations (new_access v)
        record { alone = refl; together = refl; apart = λ l. refl }) in
    (
      ground (arith, a.alone),
      ground (arith, a.alone, a.together, a.apart),
      (ground (arith, a.alone, a.together, a.apart), ground (arith, a.alone, a.together, a.apart)),
    )
