-- ===== src/Entrypoint/Launched.antt =====
-- When a process ends whose tasks are all there from the beginning (the `__main__.py` files under
-- adapters/).
use jet_core_service_bus.Prelude.{
  ℕ, zero, suc, ◌<◌, ◌≡◌, ◌≢◌, refl, Bool, true, none, List, [], ◌∷◌, ◌++◌, length, All, ap, ◌∙◌,
  sym, subst,
}
use jet_core_service_bus.Python.Exec.{Exec}
use jet_core_service_bus.Entrypoint.{
  Task, Status, running, returned, failed, Process, Event, signal, start_next, turn, turn_at,
  make_start, step, run_events, gathered, launch,
}
use jet_core_service_bus.Entrypoint.Shutdown.{Heeds}
use jet_core_service_bus.Entrypoint.Ending.{has_signal, has_turn, gathered-after_signal}

module _ {S : Type 0} where
  length-turn_at :
      (shutdown : Bool) (i : ℕ) (ts : List (Task S × Status)) (s : S)
      → length (turn_at shutdown i ts s).1 ≡ length ts
  unfolding turn_at
  length-turn_at shutdown i [] s = refl
  length-turn_at shutdown zero ((t, running) ∷ ts) s = refl
  length-turn_at shutdown zero ((t, returned) ∷ ts) s = refl
  length-turn_at shutdown zero ((t, failed) ∷ ts) s = refl
  length-turn_at shutdown (suc i) (x ∷ ts) s = ap suc (length-turn_at shutdown i ts s)

  -- A process that makes no more starts keeps its tasks.
  run_events-tasks :
      (es : List Event) (p : Process S)
      → p.starts ≡ []
      → ((run_events es p).starts ≡ []) × (length (run_events es p).tasks ≡ length p.tasks)
  unfolding run_events step make_start
  run_events-tasks [] p made = (made, refl)
  run_events-tasks (signal ∷ es) p made = run_events-tasks es (record p { shutdown = true }) made
  run_events-tasks (start_next ∷ es) p made =
      subst
        (λ q. ((run_events es q).starts ≡ []) × (length (run_events es q).tasks ≡ length p.tasks))
        (sym (ap (λ m. make_start m p) made)) (run_events-tasks es p made)
  run_events-tasks (turn i ∷ es) p made =
      let (starts, tasks) = run_events-tasks es (unfold step in step (turn i) p) made in
      (starts, tasks ∙ length-turn_at p.shutdown i p.tasks p.world)

  length-launch :
      (starts : List (Exec S (Task S))) (ts : List (Task S)) (s : S)
      → length (launch starts ts s).tasks ≡ length ts
  unfolding launch
  length-launch starts [] s = refl
  length-launch starts (t ∷ ts) s = ap suc (length-launch starts ts s)

  pub gathered-launch :
      (ts : List (Task S)) (s : S) (before after : List Event)
      → ts ≢ []
      → All Heeds ts
      → has_signal before ≡ true
      → ((i : ℕ) → i < length ts → has_turn i after ≡ true)
      → (gathered (run_events after (run_events before (launch [] ts s))) ≢ none)
        × ((run_events after (run_events before (launch [] ts s))).world
            ≡ (run_events before (launch [] ts s)).world)
  gathered-launch [] s before after there heed sent turns = absurd (there refl)
  gathered-launch (t ∷ ts) s before after there heed sent turns =
      let (made, kept) = run_events-tasks before (launch [] (t ∷ ts) s) (unfold launch in refl) in
      gathered-after_signal [] t ts s tt heed before after sent made
        (λ i below. turns i (subst (λ n. i < n) (kept ∙ length-launch [] (t ∷ ts) s) below))

  pub run_events-append :
      (before after : List Event) (p : Process S)
      → run_events (before ++ after) p ≡ run_events after (run_events before p)
  unfolding run_events
  run_events-append [] after p = refl
  run_events-append (e ∷ before) after p = run_events-append before after (step e p)
