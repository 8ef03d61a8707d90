-- ===== src/Synchronized.antt =====
-- `UniqueAccess` and `AccessGuard` of utils/src/SynchronizedAccess.hpp over a `std::shared_mutex`. A
-- guard is its index among the guards made so far; a run is the sequence in which the threads'
-- operations take effect.
pub mod Exclusion
pub mod Stability
mod Runs
use sane_in_the_membrane.Common.{
  ℕ, suc, ◌+◌, ◌-◌, Bool, true, false, List, [], ◌∷◌, ◌++◌, Option, none, some, ◌==◌, ltb, ◌&&◌,
  ◌||◌, if◌then◌else◌, get_elem?, set, length,
}
use sane_in_the_membrane.Common.Exec.{Exec, ok, fault, ◌>>=◌}

-- The two lock types: `std::unique_lock`, and `std::shared_lock` of a guard of a constant.
pub data LockType : Type 0 where
  unique_lock shared_lock : LockType

-- The state of a `std::shared_mutex`.
pub record SharedMutex : Type 0 where
  pub locked : Bool
  pub readers : ℕ

-- A guard: the thread that locked, the type of its lock, and whether the lock owns the mutex.
pub record AccessGuard : Type 0 where
  pub thread : ℕ
  pub lock_type : LockType
  pub owns_lock : Bool

pub record UniqueAccess (T : Type 0) : Type 0 where
  pub object : T
  pub mutex : SharedMutex
  pub guards : List AccessGuard

abbrev pub new_access : {T : Type 0} → T → UniqueAccess T
new_access v = record { object = v; mutex = record { locked = false; readers = 0 }; guards = [] }

-- Whether a thread owns the mutex in any mode; to lock it again is undefined.
abbrev pub is_owner : ℕ → List AccessGuard → Bool
is_owner t [] = false
is_owner t (g ∷ guards) = (g.owns_lock && g.thread == t) || is_owner t guards

abbrev pub can_lock : LockType → SharedMutex → Bool
can_lock unique_lock m = if m.locked then false else m.readers == 0
can_lock shared_lock m = if m.locked then false else true

abbrev pub lock : LockType → SharedMutex → SharedMutex
lock unique_lock m = record m { locked = true }
lock shared_lock m = record m { readers = m.readers + 1 }

abbrev pub unlock : LockType → SharedMutex → SharedMutex
unlock unique_lock m = record m { locked = false }
unlock shared_lock m = record m { readers = m.readers - 1 }

abbrev pub release_lock : AccessGuard → SharedMutex → SharedMutex
release_lock g m = if g.owns_lock then unlock g.lock_type m else m

module _ {T : Type 0} where
  -- `access` and `shared_access`; a thread that has to wait tries again later.
  unfoldable pub access_as : LockType → ℕ → UniqueAccess T → Exec (UniqueAccess T)
  access_as type t u =
      if is_owner t u.guards
      then fault
      else if can_lock type u.mutex
      then ok (record u {
        mutex = lock type u.mutex;
        guards = u.guards ++ (record { thread = t; lock_type = type; owns_lock = true } ∷ []);
      })
      else ok u

  -- The destructor of the guard at `i`.
  abbrev pub release_found : Option AccessGuard → ℕ → UniqueAccess T → UniqueAccess T
  release_found none i u = u
  release_found (some g) i u = record u {
    mutex = release_lock g u.mutex;
    guards = set u.guards i (record g { owns_lock = false });
  }

  unfoldable pub release : ℕ → UniqueAccess T → UniqueAccess T
  release i u = release_found (get_elem? u.guards i) i u

  -- `AccessGuard(AccessGuard&&)`: the new guard has the lock, the old one keeps the pointer.
  abbrev pub move_found : Option AccessGuard → ℕ → UniqueAccess T → UniqueAccess T
  move_found none i u = u
  move_found (some g) i u = record u {
    guards = set u.guards i (record g { owns_lock = false }) ++ (g ∷ []);
  }

  unfoldable pub move_guard : ℕ → UniqueAccess T → UniqueAccess T
  move_guard i u = move_found (get_elem? u.guards i) i u

  -- `operator=(AccessGuard&&)` of the guard at `i` from another one of its type; one that
  -- is assigned to itself is taken to be left alone.
  abbrev pub assign_found :
      Option AccessGuard → Option AccessGuard → ℕ → ℕ → UniqueAccess T → UniqueAccess T
  assign_found (some g) (some h) i j u = record u {
    mutex = release_lock g u.mutex;
    guards = set (set u.guards i h) j (record h { owns_lock = false });
  }
  assign_found none h i j u = u
  assign_found (some g) none i j u = u

  unfoldable pub assign_guard : ℕ → ℕ → UniqueAccess T → UniqueAccess T
  assign_guard i j u =
      if i == j then u else assign_found (get_elem? u.guards i) (get_elem? u.guards j) i j u

  -- `*guard = v` of a guard whose object is not constant, whether or not it owns the lock.
  abbrev pub write_as : LockType → T → UniqueAccess T → UniqueAccess T
  write_as unique_lock v u = record u { object = v }
  write_as shared_lock v u = u

  abbrev pub write_via : Option AccessGuard → T → UniqueAccess T → UniqueAccess T
  write_via none v u = u
  write_via (some g) v u = write_as g.lock_type v u

  unfoldable pub write_through : ℕ → T → UniqueAccess T → UniqueAccess T
  write_through i v u = write_via (get_elem? u.guards i) v u

  -- `UniqueAccess::operator=`, which takes no lock.
  abbrev pub assign_object : T → UniqueAccess T → UniqueAccess T
  assign_object v u = record u { object = v }

pub data Operation (T : Type 0) : Type 0 where
  access shared_access : ℕ → Operation T
  destroy move : ℕ → Operation T
  move_assign : ℕ → ℕ → Operation T
  write : ℕ → T → Operation T
  assign : T → Operation T

module _ {T : Type 0} where
  unfoldable pub operate : Operation T → UniqueAccess T → Exec (UniqueAccess T)
  unfolding access_as release move_guard assign_guard write_through
  operate (access t) u = access_as unique_lock t u
  operate (shared_access t) u = access_as shared_lock t u
  operate (destroy i) u = ok (release i u)
  operate (move i) u = ok (move_guard i u)
  operate (move_assign i j) u = ok (assign_guard i j u)
  operate (write i v) u = ok (write_through i v u)
  operate (assign v) u = ok (assign_object v u)

  unfoldable pub operate_all : List (Operation T) → UniqueAccess T → Exec (UniqueAccess T)
  unfolding operate
  operate_all [] u = ok u
  operate_all (o ∷ operations) u = operate o u >>= λ u'. operate_all operations u'
