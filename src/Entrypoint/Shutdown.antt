-- ===== src/Entrypoint/Shutdown.antt =====
-- What a shutdown brings about (the `__main__.py` files under adapters/).
use jet_core_service_bus.Prelude.{
  ℕ, zero, suc, ◌≡◌, refl, true, false, Option, none, some, List, [], ◌∷◌, All, arith, ap, ◌∙◌,
}
use jet_core_service_bus.Python.Exception.{Exception, ok}
use jet_core_service_bus.Python.Exec.{Exec, pure, ◌>>=◌}
use jet_core_service_bus.Python.Exec.Hoare.{Ends}
use jet_core_service_bus.Entrypoint.{
  Progress, going, finished, Task, Status, running, returned, failed, Process, Event, signal,
  start_next, turn, turn_at, make_start, turned, step, run_events, first_failure, loop,
  wait_for_shutdown, Result, err,
}

-- A task that looks at the shutdown event: once it is set, its turn does nothing and is the last;
-- before, no turn is the last unless it raises.
pub record Heeds {S : Type 0} (t : Task S) : Type 0 where
  pub stops : (s : S) → t true s ≡ (ok finished, s)
  pub persists : (s : S) → Ends (λ g _. g ≡ going) (λ _ _. Unit {0}) (t false s)

-- A start makes such a task, or raises.
abbrev pub Makes {ℓ} : {S : Type ℓ} {A : Type ℓ} → (A → Type ℓ) → Exec S A → Type ℓ
Makes P m = (s : _) → Ends (λ a _. P a) (λ _ _. Unit) (m s)

abbrev pub HeedsAt : {S : Type 0} → Task S × Status → Type 0
HeedsAt (t, st) = Heeds t

-- What a turn leaves of a status once the event is set
unfoldable pub stopped : Status → Status
stopped running = returned
stopped st = st

module _ {S : Type 0} where
  unfoldable pub stop_at : ℕ → List (Task S × Status) → List (Task S × Status)
  unfolding stopped
  stop_at i [] = []
  stop_at zero ((t, st) ∷ ts) = (t, stopped st) ∷ ts
  stop_at (suc i) (x ∷ ts) = x ∷ stop_at i ts

  unfoldable pub stop_each : List Event → List (Task S × Status) → List (Task S × Status)
  stop_each [] ts = ts
  stop_each (turn i ∷ es) ts = stop_each es (stop_at i ts)
  stop_each (e ∷ es) ts = stop_each es ts

  turn_at-stop_at :
      (i : ℕ) (ts : List (Task S × Status)) (s : S)
      → All HeedsAt ts
      → (g : Progress) × (turn_at true i ts s ≡ (ok g, stop_at i ts, s))
  unfolding turn_at stop_at stopped
  turn_at-stop_at i [] s h = (going, refl)
  turn_at-stop_at zero ((t, running) ∷ ts) s (h, _) = (finished, rw (h.stops s) refl)
  turn_at-stop_at zero ((t, returned) ∷ ts) s h = (going, refl)
  turn_at-stop_at zero ((t, failed) ∷ ts) s h = (going, refl)
  turn_at-stop_at (suc i) (x ∷ ts) s (_, h) =
      let (g, e) = turn_at-stop_at i ts s h in (g, rw e refl)

  stop_at-Heeds :
      (i : ℕ) (ts : List (Task S × Status)) → All HeedsAt ts → All HeedsAt (stop_at i ts)
  unfolding stop_at
  stop_at-Heeds i [] h = h
  stop_at-Heeds zero (x ∷ ts) h = h
  stop_at-Heeds (suc i) (x ∷ ts) (k, h) = (k, stop_at-Heeds i ts h)

  -- A process whose event is set and that makes no more starts
  pub record IsStopping (p : Process S) : Type 0 where
    pub set : p.shutdown ≡ true
    pub made : p.starts ≡ []
    pub heed : All HeedsAt p.tasks

  signal-stays : (p : Process S) → IsStopping p → step signal p ≡ p
  unfolding step
  signal-stays p d = ground (arith, d.set)

  start_next-stays : (p : Process S) → IsStopping p → step start_next p ≡ p
  unfolding step make_start
  start_next-stays p d = rw (d.made) refl

  turn-stops :
      (i : ℕ) (p : Process S)
      → IsStopping p
      → step (turn i) p ≡ record p { tasks = stop_at i p.tasks }
  unfolding step
  turn-stops i p d =
      let (g, e) = turn_at-stop_at i p.tasks p.world d.heed in
      ap (λ b. turned p (turn_at b i p.tasks p.world)) d.set ∙ ap (turned p) e ∙ kept p.failure g
    where
      kept :
          (f : Option Exception) (g : Progress)
          → record p { tasks = stop_at i p.tasks; failure = first_failure f (ok g) }
            ≡ record p { tasks = stop_at i p.tasks; failure = f }
      kept none g = refl
      kept (some e) g = refl

  pub run_events-stop_each :
      (es : List Event) (p : Process S)
      → IsStopping p
      → run_events es p ≡ record p { tasks = stop_each es p.tasks }
  unfolding run_events stop_each
  run_events-stop_each [] p d = refl
  run_events-stop_each (signal ∷ es) p d =
      ap (run_events es) (signal-stays p d) ∙ run_events-stop_each es p d
  run_events-stop_each (start_next ∷ es) p d =
      ap (run_events es) (start_next-stays p d) ∙ run_events-stop_each es p d
  run_events-stop_each (turn i ∷ es) p d =
      ap (run_events es) (turn-stops i p d)
      ∙ run_events-stop_each es (record p { tasks = stop_at i p.tasks })
          (record { set = d.set; made = d.made; heed = stop_at-Heeds i p.tasks d.heed })

  pub loop-Heeds : (run_once : Exec S ℕ) → Heeds (loop run_once)
  unfolding loop
  loop-Heeds run_once = record {
    stops = λ s. refl;
    persists = λ s. going_on (run_once s).0 (run_once s).1;
  }
    where
      going_on :
          (r : Result ℕ) (s : S)
          → Ends (λ g (_ : S). g ≡ going) (λ _ _. Unit {0}) (((λ _. (r, s)) >>= λ _. pure going) s)
      going_on (ok n) s = refl
      going_on (err e) s = tt

  pub wait_for_shutdown-Heeds : Heeds {S = S} wait_for_shutdown
  unfolding wait_for_shutdown
  wait_for_shutdown-Heeds = record { stops = λ s. refl; persists = λ s. refl }
