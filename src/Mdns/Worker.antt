-- ===== src/Mdns/Worker.antt =====
-- The thread that searches for a server: the constructor, the destructor and `discover` of
-- `CMDnsAutoFinder` (gui-app/src/Utils/mDNS/mDnsAutoFind.{hpp,cpp}). A turn of the worker ends a
-- search, or is what it does while it holds the mutex. A notification wakes it from
-- the condition variable, and so may a spurious wakeup, since nothing is tested there.
use sane_in_the_membrane.Common.{
  ℕ, zero, suc, ◌+◌, ◌≡◌, refl, ap, ◌∙◌, Bool, true, false, List, [], ◌∷◌, ◌++◌, if◌then◌else◌,
}

-- `entering` is between two searches, before the mutex is taken; `awake` has been notified.
pub data WorkerState : Type 0 where
  searching entering sleeping awake exited : WorkerState

-- `searches` counts the calls of `discover_inner`.
pub record Finder : Type 0 where
  pub stop : Bool
  pub worker : WorkerState
  pub searches : ℕ

abbrev pub new_finder : Finder
new_finder = record { stop = false; worker = searching; searches = 1 }

abbrev pub notify : WorkerState → WorkerState
notify sleeping = awake
notify searching = searching
notify entering = entering
notify awake = awake
notify exited = exited

unfoldable pub discover : Finder → Finder
discover f = record f { worker = notify f.worker }

-- What the destructor does before it joins the worker.
unfoldable pub destroy : Finder → Finder
destroy f = record f { stop = true; worker = notify f.worker }

abbrev pub step : WorkerState → Finder → Finder
step searching f = record f { worker = entering }
step entering f = record f { worker = sleeping }
step sleeping f = f
step awake f =
    if f.stop
    then record f { worker = exited }
    else record f { worker = searching; searches = f.searches + 1 }
step exited f = f

-- The worker goes on, or wakes without a notification if it sleeps.
pub data WorkerTurn : Type 0 where
  moves wakes_spuriously : WorkerTurn

abbrev pub take_turn : WorkerTurn → Finder → Finder
take_turn moves f = step f.worker f
take_turn wakes_spuriously f = record f { worker = notify f.worker }

unfoldable pub turns : List WorkerTurn → Finder → Finder
turns [] f = f
turns (t ∷ ts) f = turns ts (take_turn t f)

-- Turns without a spurious wakeup.
abbrev pub undisturbed : ℕ → List WorkerTurn
undisturbed zero = []
undisturbed (suc n) = moves ∷ undisturbed n

-- Reference: where the worker is in the end when the finder is destroyed in a state.
abbrev pub fate : WorkerState → WorkerState
fate searching = sleeping
fate entering = sleeping
fate sleeping = exited
fate awake = exited
fate exited = exited

-- What no turn changes.
turns-still : (n : ℕ) (f : Finder) → step f.worker f ≡ f → turns (undisturbed n) f ≡ f
unfolding turns
turns-still zero f e = refl
turns-still (suc n) f e = ap (turns (undisturbed n)) e ∙ turns-still n f e

turns-append : (xs ys : List WorkerTurn) (f : Finder) → turns (xs ++ ys) f ≡ turns ys (turns xs f)
unfolding turns
turns-append [] ys f = refl
turns-append (x ∷ xs) ys f = turns-append xs ys (take_turn x f)

abbrev stopped : WorkerState → Finder → Finder
stopped w f = record f { stop = true; worker = w }

destroy-at :
    (w : WorkerState) (n : ℕ) (f : Finder)
    → turns (undisturbed (suc (suc n))) (stopped (notify w) f) ≡ stopped (fate w) f
unfolding turns
destroy-at searching n f = turns-still n (stopped sleeping f) refl
destroy-at entering n f = turns-still n (stopped sleeping f) refl
destroy-at sleeping n f = turns-still n (stopped exited f) refl
destroy-at awake n f = turns-still n (stopped exited f) refl
destroy-at exited n f = turns-still n (stopped exited f) refl

woken :
    (w : WorkerState) (f : Finder)
    → (turns (wakes_spuriously ∷ moves ∷ []) (stopped (fate w) f)).worker ≡ exited
unfolding turns
woken searching f = refl
woken entering f = refl
woken sleeping f = refl
woken awake f = refl
woken exited f = refl

-- Two turns or more after the finder is destroyed, none of them a spurious wakeup, its worker has
-- exited if it slept or was notified, and sleeps if it was searching or had just ended a search, so
-- that joining it blocks; only a spurious wakeup ends that: with its next turn the worker has exited.
pub destroy-fate :
    (n : ℕ) (f : Finder)
    → ((turns (undisturbed (suc (suc n))) (destroy f)).worker ≡ fate f.worker)
      × ((turns (undisturbed (suc (suc n)) ++ (wakes_spuriously ∷ moves ∷ [])) (destroy f)).worker
          ≡ exited)
unfolding destroy
destroy-fate n f =
    let settled = destroy-at f.worker n f in
    (
      ap (λ (g : Finder). g.worker) settled,
      ap (λ (g : Finder). g.worker)
            (turns-append (undisturbed (suc (suc n))) _ (stopped (notify f.worker) f)
              ∙ ap (turns (wakes_spuriously ∷ moves ∷ [])) settled)
          ∙ woken f.worker f,
    )
