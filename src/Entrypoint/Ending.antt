-- ===== src/Entrypoint/Ending.antt =====
-- When the process of an adapter ends (the `__main__.py` files under adapters/).
use jet_core_service_bus.Prelude.{
  ℕ, zero, suc, ◌<◌, ◌≡◌, ◌≢◌, refl, inl, inr, Bool, true, false, ◌||◌, ◌==◌, none, some, List, [],
  ◌∷◌, length, All, arith, ap, ◌∙◌, Bool-cases, Option-cases, if◌then◌else◌, subst,
}
use jet_core_service_bus.Python.Exception.{Result, ok, err}
use jet_core_service_bus.Python.Exec.{Exec}
use jet_core_service_bus.Entrypoint.{
  Task, Status, running, returned, failed, Process, Event, signal, start_next, turn, make_start,
  step, run_events, all_returned, gathered, launch, started,
}
use jet_core_service_bus.Entrypoint.Shutdown.{
  Heeds, Makes, IsStopping, stop_at, stopped, stop_each, run_events-stop_each,
}
use jet_core_service_bus.Entrypoint.Reachable.{
  IsSound, NotFailed, NotReturned, run_events-IsSound, launch-IsSound,
}

-- Some event of the list is a signal.
abbrev pub has_signal : List Event → Bool
has_signal [] = false
has_signal (signal ∷ es) = true
has_signal (e ∷ es) = has_signal es

-- Some event of the list is a turn of that task.
abbrev pub has_turn : ℕ → List Event → Bool
has_turn i [] = false
has_turn i (turn j ∷ es) = j == i || has_turn i es
has_turn i (e ∷ es) = has_turn i es

abbrev is_running : Status → Bool
is_running running = true
is_running st = false

module _ {S : Type 0} where
  live_at : ℕ → List (Task S × Status) → Bool
  live_at i [] = false
  live_at zero ((t, st) ∷ ts) = is_running st
  live_at (suc i) (x ∷ ts) = live_at i ts

  live-stop_at :
      (i j : ℕ) (ts : List (Task S × Status))
      → live_at i (stop_at j ts) ≡ (if j == i then false else live_at i ts)
  unfolding live_at stop_at stopped
  live-stop_at i j [] = ground arith
  live-stop_at zero zero ((t, running) ∷ ts) = refl
  live-stop_at zero zero ((t, returned) ∷ ts) = refl
  live-stop_at zero zero ((t, failed) ∷ ts) = refl
  live-stop_at zero (suc j) (x ∷ ts) = ground arith
  live-stop_at (suc i) zero (x ∷ ts) = ground arith
  live-stop_at (suc i) (suc j) (x ∷ ts) = ground (arith, live-stop_at i j ts)

  live-stop_each :
      (i : ℕ) (es : List Event) (ts : List (Task S × Status))
      → live_at i (stop_each es ts) ≡ (if has_turn i es then false else live_at i ts)
  unfolding stop_each
  live-stop_each i [] ts = refl
  live-stop_each i (signal ∷ es) ts = live-stop_each i es ts
  live-stop_each i (start_next ∷ es) ts = live-stop_each i es ts
  live-stop_each i (turn j ∷ es) ts =
      ground (arith, live-stop_each i es (stop_at j ts), live-stop_at i j ts)

  length-stop_at : (j : ℕ) (ts : List (Task S × Status)) → length (stop_at j ts) ≡ length ts
  unfolding stop_at
  length-stop_at j [] = refl
  length-stop_at zero (x ∷ ts) = refl
  length-stop_at (suc j) (x ∷ ts) = ap suc (length-stop_at j ts)

  length-stop_each :
      (es : List Event) (ts : List (Task S × Status)) → length (stop_each es ts) ≡ length ts
  unfolding stop_each
  length-stop_each [] ts = refl
  length-stop_each (signal ∷ es) ts = length-stop_each es ts
  length-stop_each (start_next ∷ es) ts = length-stop_each es ts
  length-stop_each (turn j ∷ es) ts = length-stop_each es (stop_at j ts) ∙ length-stop_at j ts

  all_returned-of :
      (ts : List (Task S × Status))
      → All NotFailed ts
      → ((i : ℕ) → i < length ts → live_at i ts ≡ false)
      → all_returned ts ≡ true
  unfolding all_returned live_at
  all_returned-of [] h dead = refl
  all_returned-of ((t, running) ∷ ts) h dead = cc (dead 0 (omega arith))
  all_returned-of ((t, returned) ∷ ts) (_, h) dead =
      all_returned-of ts h (λ i below. dead (suc i) (omega arith))
  all_returned-of ((t, failed) ∷ ts) (k, h) dead = absurd (k refl)

  gathered-of :
      (p : Process S)
      → p.starts ≡ []
      → (p.failure ≡ none → all_returned p.tasks ≡ true)
      → gathered p ≢ none
  unfolding gathered
  gathered-of p made h e = elim (Option-cases p.failure) [
    | inl fine ↦ absurd (ground (arith, h fine))
    | inr (x, found) ↦ absurd (ground arith)
  ]

  sound-IsStopping : (p : Process S) → IsSound p → p.shutdown ≡ true → p.starts ≡ [] → IsStopping p
  sound-IsStopping p h set made = record { set = set; made = made; heed = h.heed }

  gathered-stopping :
      (p : Process S) (es : List Event)
      → IsSound p
      → p.shutdown ≡ true
      → p.starts ≡ []
      → ((i : ℕ) → i < length p.tasks → has_turn i es ≡ true)
      → (gathered (run_events es p) ≢ none) × ((run_events es p).world ≡ p.world)
  gathered-stopping p es h set made turns =
      let stops = run_events-stop_each es p (sound-IsStopping p h set made) in
      let tasks = ap (λ q. q.tasks) stops in
      (
        gathered-of (run_events es p) (ap (λ q. q.starts) stops ∙ made) (λ fine.
            all_returned-of (run_events es p).tasks ((run_events-IsSound es p h).clean fine)
              (λ i below.
                ap (live_at i) tasks
                ∙ live-stop_each i es p.tasks
                ∙ ap (λ b. if b then false else live_at i p.tasks)
                    (turns i
                      (subst (λ n. i < n) (ap length tasks ∙ length-stop_each es p.tasks) below)))),
        ap (λ q. q.world) stops,
      )

  make_start-shutdown :
      (starts : List (Exec S (Task S))) (p : Process S)
      → (make_start starts p).shutdown ≡ p.shutdown
  unfolding make_start
  make_start-shutdown [] p = refl
  make_start-shutdown (m ∷ rest) p = kept (m p.world).0 (m p.world).1
    where
      kept : (r : Result (Task S)) (s : S) → (started p rest (r, s)).shutdown ≡ p.shutdown
      kept (ok t) s = refl
      kept (err e) s = refl

  run_events-shutdown :
      (es : List Event) (p : Process S) → (run_events es p).shutdown ≡ (p.shutdown || has_signal es)
  unfolding run_events step
  run_events-shutdown [] p = ground arith
  run_events-shutdown (signal ∷ es) p =
      run_events-shutdown es (record p { shutdown = true }) ∙ ground arith
  run_events-shutdown (start_next ∷ es) p =
      run_events-shutdown es (make_start p.starts p)
      ∙ ap (λ b. b || has_signal es) (make_start-shutdown p.starts p)
  run_events-shutdown (turn i ∷ es) p = run_events-shutdown es (unfold step in step (turn i) p)

  not-all_returned :
      (ts : List (Task S × Status)) → ts ≢ [] → All NotReturned ts → all_returned ts ≡ false
  unfolding all_returned
  not-all_returned [] there h = absurd (there refl)
  not-all_returned ((t, running) ∷ ts) there h = refl
  not-all_returned ((t, returned) ∷ ts) there (k, h) = absurd (k refl)
  not-all_returned ((t, failed) ∷ ts) there h = refl

  gathered-ok : (p : Process S) → gathered p ≡ some (ok tt) → all_returned p.tasks ≡ true
  unfolding gathered
  gathered-ok p h = ground arith

  module _ (starts : List (Exec S (Task S))) (t : Task S) (ts : List (Task S)) (s : S)
      (made : All (Makes Heeds) starts) (heed : All Heeds (t ∷ ts)) where
    -- Let the tasks of a process, at least one from the beginning, and those that its starts make,
    -- heed the shutdown. When `run` has returned without an exception, a signal came, whatever the
    -- order of starts, turns and signals.
    pub gathered-has_signal :
        (es : List Event)
        → gathered (run_events es (launch starts (t ∷ ts) s)) ≡ some (ok tt)
        → has_signal es ≡ true
    unfolding launch
    gathered-has_signal es h =
        let p = run_events es (launch starts (t ∷ ts) s) in
        let sound =
          run_events-IsSound es (launch starts (t ∷ ts) s)
            (launch-IsSound starts t ts s made heed) in
        elim (Bool-cases (has_signal es)) [
          | inl sent ↦ sent
          | inr quiet ↦ absurd (
              ground (
                arith,
                gathered-ok p h,
                not-all_returned p.tasks sound.some_task
                    (sound.waits (run_events-shutdown es (launch starts (t ∷ ts) s) ∙ quiet)),
              ))
        ]

    -- Let the tasks of a process, at least one from the beginning, and those that its starts make,
    -- heed the shutdown, and let some events include a signal and leave no start to make. After any
    -- further events in which every task has a turn, `run` has ended, and these events changed
    -- nothing in the world.
    pub gathered-after_signal :
        (before after : List Event)
        → has_signal before ≡ true
        → (run_events before (launch starts (t ∷ ts) s)).starts ≡ []
        → ((i : ℕ)
            → i < length (run_events before (launch starts (t ∷ ts) s)).tasks
            → has_turn i after ≡ true)
        → (gathered (run_events after (run_events before (launch starts (t ∷ ts) s))) ≢ none)
          × ((run_events after (run_events before (launch starts (t ∷ ts) s))).world
              ≡ (run_events before (launch starts (t ∷ ts) s)).world)
    unfolding launch
    gathered-after_signal before after sent none_left turns =
        let p = run_events before (launch starts (t ∷ ts) s) in
        gathered-stopping p after
          (run_events-IsSound before (launch starts (t ∷ ts) s)
            (launch-IsSound starts t ts s made heed))
          (run_events-shutdown before (launch starts (t ∷ ts) s) ∙ sent) none_left turns
