-- ===== src/Synchronized/Runs.antt =====
-- Guards of two threads at one `UniqueAccess`.
use sane_in_the_membrane.Common.{
  ℕ, ◌≡◌, refl, sym, ap, Bool, true, false, Option, none, List, [], ◌∷◌, some, get_elem?,
}
use sane_in_the_membrane.Common.Exec.{ok}
use sane_in_the_membrane.Synchronized.{
  UniqueAccess, AccessGuard, shared_lock, new_access, Operation, access, shared_access, destroy,
  write, operate, operate_all, access_as, write_through, release,
}
use sane_in_the_membrane.Synchronized.Stability.{RespectsAll, RespectsAll-next, operate_all-object}

abbrev reader : AccessGuard
reader = record { thread = 1; lock_type = shared_lock; owns_lock = true }

abbrev owns_lock_of : Option AccessGuard → Bool
owns_lock_of none = false
owns_lock_of (some g) = g.owns_lock

abbrev two_readers : UniqueAccess ℕ
two_readers = record {
  object = 5;
  mutex = record { locked = false; readers = 2 };
  guards = reader ∷ record { thread = 2; lock_type = shared_lock; owns_lock = true } ∷ [];
}

abbrev one_reader : UniqueAccess ℕ
one_reader = record {
  object = 5;
  mutex = record { locked = false; readers = 1 };
  guards = reader ∷ record { thread = 2; lock_type = shared_lock; owns_lock = false } ∷ [];
}

abbrev sharing : List (Operation ℕ)
sharing = shared_access 1 ∷ shared_access 2 ∷ access 3 ∷ []

sharing_lem : operate_all sharing (new_access 5) ≡ ok two_readers
unfolding operate_all operate access_as
sharing_lem = refl

abbrev leaving : List (Operation ℕ)
leaving = access 3 ∷ write 1 9 ∷ destroy 1 ∷ access 3 ∷ []

leaving-RespectsAll : RespectsAll 0 leaving two_readers
unfolding operate access_as write_through release
leaving-RespectsAll =
    RespectsAll-next (write 1 9 ∷ destroy 1 ∷ access 3 ∷ []) 0 (access 3) two_readers two_readers
      refl refl
      (RespectsAll-next (destroy 1 ∷ access 3 ∷ []) 0 (write 1 9) two_readers two_readers
        (λ e. cc e, λ h e. ap owns_lock_of (sym e)) refl
        (RespectsAll-next (access 3 ∷ []) 0 (destroy 1) two_readers one_reader (λ e. cc e) refl
          (RespectsAll-next [] 0 (access 3) one_reader one_reader refl refl tt)))

operate_all-object_example :
    (u : UniqueAccess ℕ) × (operate_all leaving two_readers ≡ ok u)
    × (u.object ≡ 5)
    × (get_elem? u.guards 0 ≡ some reader)
operate_all-object_example =
    operate_all-object leaving two_readers 0 reader
      record { alone = refl; together = refl; apart = λ l. absurd (cc l) } refl refl
      leaving-RespectsAll
