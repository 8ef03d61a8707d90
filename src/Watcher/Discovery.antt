-- ===== src/Watcher/Discovery.antt =====
-- How often the watcher of gui-app/src/Service/ChannelStateChangeService.cpp looks for a server, and
-- what it reports.
use sane_in_the_membrane.Common.{
  ℕ, suc, ◌+◌, ◌≤◌, ◌≡◌, refl, ap, ◌∙◌, List, [], ◌∷◌, ◌++◌, ltb, leb, ◌&&◌, if◌then◌else◌, arith,
  min, All, inl, inr, Bool-cases,
}
use sane_in_the_membrane.Watcher.{
  ConnectivityState, channel_idle, connecting, ready, transient_failure, shutdown, state_eq,
  WatcherEvent, discover, stopping_auto_discovery, channel_state_changed, Watcher, try_discovery,
  note_state, watch_round, watch,
}

abbrev pub discoveries : List WatcherEvent → ℕ
discoveries [] = 0
discoveries (discover ∷ events) = suc (discoveries events)
discoveries (stopping_auto_discovery ∷ events) = discoveries events
discoveries (channel_state_changed s ∷ events) = discoveries events

abbrev pub stops : List WatcherEvent → ℕ
stops [] = 0
stops (discover ∷ events) = stops events
stops (stopping_auto_discovery ∷ events) = suc (stops events)
stops (channel_state_changed s ∷ events) = stops events

discoveries-append :
    (xs ys : List WatcherEvent) → discoveries (xs ++ ys) ≡ discoveries xs + discoveries ys
discoveries-append [] ys = omega arith
discoveries-append (discover ∷ xs) ys = omega (arith, discoveries-append xs ys)
discoveries-append (stopping_auto_discovery ∷ xs) ys = discoveries-append xs ys
discoveries-append (channel_state_changed s ∷ xs) ys = discoveries-append xs ys

stops-append : (xs ys : List WatcherEvent) → stops (xs ++ ys) ≡ stops xs + stops ys
stops-append [] ys = omega arith
stops-append (discover ∷ xs) ys = stops-append xs ys
stops-append (stopping_auto_discovery ∷ xs) ys = omega (arith, stops-append xs ys)
stops-append (channel_state_changed s ∷ xs) ys = stops-append xs ys

abbrev pub failures : List ConnectivityState → ℕ
failures [] = 0
failures (transient_failure ∷ states) = suc (failures states)
failures (state ∷ states) = failures states

-- The channel is neither idle nor connected.
abbrev pub IsDown : ConnectivityState → Type 0
IsDown channel_idle = ⊥
IsDown ready = ⊥
IsDown state = Unit {0}

-- The count after some failures, and what that says of the events, while the channel is down.
pub record Tried (n : ℕ) (w : Watcher) (events : List WatcherEvent) (w' : Watcher) : Type 0 where
  pub counts : w'.connection_failure_count ≡ min (w.connection_failure_count + n) 5
  pub tried : w.connection_failure_count + discoveries events ≡ w'.connection_failure_count
  pub stopped : stops events ≡ (
      if ltb w.connection_failure_count 5 && leb 5 (w.connection_failure_count + n) then 1 else 0)

round-Tried :
    (s : ConnectivityState) (w : Watcher)
    → IsDown s
    → w.connection_failure_count ≤ 5
    → Tried (failures (s ∷ [])) w (watch_round s w).0 (watch_round s w).1
unfolding watch_round try_discovery note_state
round-Tried channel_idle w d h = absurd d
round-Tried ready w d h = absurd d
round-Tried connecting w d h = record {
  counts = ground arith;
  tried = ground arith;
  stopped = ground arith;
}
round-Tried transient_failure w d h = record {
  counts = ground arith;
  tried = ground arith;
  stopped = ground arith;
}
round-Tried shutdown w d h = record {
  counts = ground arith;
  tried = ground arith;
  stopped = ground arith;
}

failures-cons :
    (s : ConnectivityState) (states : List ConnectivityState)
    → failures (s ∷ states) ≡ failures (s ∷ []) + failures states
failures-cons channel_idle states = omega arith
failures-cons connecting states = omega arith
failures-cons ready states = omega arith
failures-cons transient_failure states = omega arith
failures-cons shutdown states = omega arith

-- While the channel is down, the watcher looks for a server once for each failure seen, until there
-- were five in all, and announces that it stops exactly once, with the fifth.
pub watch-Tried :
    (states : List ConnectivityState) (w : Watcher)
    → All IsDown states
    → w.connection_failure_count ≤ 5
    → Tried (failures states) w (watch states w).0 (watch states w).1
unfolding watch
watch-Tried [] w d h = record { counts = omega arith; tried = omega arith; stopped = ground arith }
watch-Tried (s ∷ states) w d h =
    let first = round-Tried s w d.0 h in
    let rest = watch-Tried states (watch_round s w).1 d.1 (omega (arith, first.counts)) in
    let split = failures-cons s states in
    let events = (watch_round s w).0 in
    let events' = (watch states (watch_round s w).1).0 in
    record {
      counts = omega (arith, first.counts, rest.counts, split);
      tried = omega (arith, first.tried, rest.tried, discoveries-append events events');
      stopped =
          ground
            (arith, first.stopped, rest.stopped, first.counts, split, stops-append events events');
    }

-- Reference: the states that differ from the one before.
abbrev pub changes : ConnectivityState → List ConnectivityState → List ConnectivityState
changes old [] = []
changes old (s ∷ states) =
    let same = changes old states in
    let changed = changes s states in if state_eq old s then same else s ∷ changed

abbrev pub reports : List WatcherEvent → List ConnectivityState
reports [] = []
reports (discover ∷ events) = reports events
reports (stopping_auto_discovery ∷ events) = reports events
reports (channel_state_changed s ∷ events) = s ∷ reports events

reports-append : (xs ys : List WatcherEvent) → reports (xs ++ ys) ≡ reports xs ++ reports ys
reports-append [] ys = refl
reports-append (discover ∷ xs) ys = reports-append xs ys
reports-append (stopping_auto_discovery ∷ xs) ys = reports-append xs ys
reports-append (channel_state_changed s ∷ xs) ys = ap (◌∷◌ s) (reports-append xs ys)

try_discovery-silent :
    (s : ConnectivityState) (w : Watcher)
    → (reports (try_discovery s w).0 ≡ []) × ((try_discovery s w).1.state ≡ w.state)
unfolding try_discovery
try_discovery-silent s w = ground arith

note_state-reports :
    (s : ConnectivityState) (w : Watcher)
    → (reports (note_state s w).0 ≡ (if state_eq w.state s then [] else s ∷ []))
      × ((note_state s w).1.state ≡ (if state_eq w.state s then w.state else s))
unfolding note_state
note_state-reports s w = elim (Bool-cases (state_eq w.state s)) [
  | inl e ↦ rw e (refl, refl)
  | inr e ↦ rw e (refl, refl)
]

round-reports :
    (s : ConnectivityState) (w : Watcher)
    → (reports (watch_round s w).0 ≡ (if state_eq w.state s then [] else s ∷ []))
      × ((watch_round s w).1.state ≡ (if state_eq w.state s then w.state else s))
unfolding watch_round
round-reports s w =
    let (silent, kept) = try_discovery-silent s w in
    let (reported, now) = note_state-reports s (try_discovery s w).1 in
    let said = ap (λ xs. xs ++ reports (note_state s (try_discovery s w).1).0) silent in
    (
      reports-append (try_discovery s w).0 _
          ∙ said
          ∙ reported
          ∙ ap (λ old. if state_eq old s then [] else s ∷ []) kept,
      now ∙ ap (λ old. if state_eq old s then old else s) kept,
    )

-- The states reported are those that differ from the one before, each once, whatever gRPC says.
pub watch-changes :
    (states : List ConnectivityState) (w : Watcher)
    → reports (watch states w).0 ≡ changes w.state states
unfolding watch
watch-changes [] w = refl
watch-changes (s ∷ states) w =
    let (first, now) = round-reports s w in
    let rest = watch-changes states (watch_round s w).1 in
    reports-append (watch_round s w).0 (watch states (watch_round s w).1).0
    ∙ ap (λ xs. xs ++ reports (watch states (watch_round s w).1).0) first
    ∙ ap (λ xs. (if state_eq w.state s then [] else s ∷ []) ++ xs)
        (rest ∙ ap (λ old. changes old states) now)
    ∙ elim (Bool-cases (state_eq w.state s)) [ inl e ↦ rw e refl | inr e ↦ rw e refl ]
