-- ===== src/Entrypoint/Reachable.antt =====
-- What holds of a process whatever has happened to it (the `__main__.py` files under adapters/).
use jet_core_service_bus.Prelude.{
  ℕ, zero, suc, ◌≡◌, ◌≢◌, refl, Bool, false, Option, none, some, List, [], ◌∷◌, ◌++◌, All,
  All-append, arith, map, subst, sym,
}
use jet_core_service_bus.Python.Exception.{Exception, Result, ok, err}
use jet_core_service_bus.Python.Exec.{Exec}
use jet_core_service_bus.Python.Exec.Hoare.{Ends}
use jet_core_service_bus.Entrypoint.{
  Progress, going, finished, Task, Status, running, returned, failed, Process, Event, signal,
  start_next, turn, turn_at, make_start, started, step, run_events, launch, first_failure,
  status_after,
}
use jet_core_service_bus.Entrypoint.Shutdown.{Heeds, HeedsAt, Makes}

abbrev pub NotFailed : {S : Type 0} → Task S × Status → Type 0
NotFailed (t, st) = st ≢ failed

abbrev pub NotReturned : {S : Type 0} → Task S × Status → Type 0
NotReturned (t, st) = st ≢ returned

abbrev IsOk : Result Progress → Type 0
IsOk (ok g) = Unit
IsOk (err e) = ⊥

failure-IsOk :
    (f : Option Exception) (r : Result Progress) → first_failure f r ≡ none → (f ≡ none) × IsOk r
failure-IsOk (some e) r h = absurd (ground arith)
failure-IsOk none (ok g) h = (refl, tt)
failure-IsOk none (err e) h = absurd (ground arith)

module _ {S : Type 0} where
  turn_at-HeedsAt :
      (b : Bool) (i : ℕ) (ts : List (Task S × Status)) (s : S)
      → All HeedsAt ts
      → All HeedsAt (turn_at b i ts s).1
  unfolding turn_at
  turn_at-HeedsAt b i [] s h = h
  turn_at-HeedsAt b zero ((t, running) ∷ ts) s h = h
  turn_at-HeedsAt b zero ((t, returned) ∷ ts) s h = h
  turn_at-HeedsAt b zero ((t, failed) ∷ ts) s h = h
  turn_at-HeedsAt b (suc i) (x ∷ ts) s (k, h) = (k, turn_at-HeedsAt b i ts s h)

  status_after-NotFailed :
      (t : Task S) (r : Result Progress) → IsOk r → NotFailed (t, status_after r)
  status_after-NotFailed t (ok going) h = cc
  status_after-NotFailed t (ok finished) h = cc
  status_after-NotFailed t (err e) h = absurd h

  turn_at-NotFailed :
      (b : Bool) (i : ℕ) (ts : List (Task S × Status)) (s : S)
      → All NotFailed ts
      → IsOk (turn_at b i ts s).0
      → All NotFailed (turn_at b i ts s).1
  unfolding turn_at
  turn_at-NotFailed b i [] s h fine = h
  turn_at-NotFailed b zero ((t, running) ∷ ts) s (k, h) fine =
      (status_after-NotFailed t (t b s).0 fine, h)
  turn_at-NotFailed b zero ((t, returned) ∷ ts) s h fine = h
  turn_at-NotFailed b zero ((t, failed) ∷ ts) s h fine = h
  turn_at-NotFailed b (suc i) (x ∷ ts) s (k, h) fine = (k, turn_at-NotFailed b i ts s h fine)

  status_after-NotReturned :
      (t : Task S) (r : Result Progress) (s : S)
      → Ends (λ g (_ : S). g ≡ going) (λ _ _. Unit {0}) (r, s)
      → NotReturned (t, status_after r)
  status_after-NotReturned t (ok going) s h = cc
  status_after-NotReturned t (ok finished) s h = cc
  status_after-NotReturned t (err e) s h = cc

  turn_at-NotReturned :
      (i : ℕ) (ts : List (Task S × Status)) (s : S)
      → All HeedsAt ts
      → All NotReturned ts
      → All NotReturned (turn_at false i ts s).1
  unfolding turn_at
  turn_at-NotReturned i [] s heed h = h
  turn_at-NotReturned zero ((t, running) ∷ ts) s (heeds, _) (k, h) =
      (status_after-NotReturned t (t false s).0 (t false s).1 (heeds.persists s), h)
  turn_at-NotReturned zero ((t, returned) ∷ ts) s heed h = h
  turn_at-NotReturned zero ((t, failed) ∷ ts) s heed h = h
  turn_at-NotReturned (suc i) (x ∷ ts) s (_, heed) (k, h) = (k, turn_at-NotReturned i ts s heed h)

  turn_at-ne-nil :
      (b : Bool) (i : ℕ) (ts : List (Task S × Status)) (s : S) → ts ≢ [] → (turn_at b i ts s).1 ≢ []
  unfolding turn_at
  turn_at-ne-nil b i [] s h = h
  turn_at-ne-nil b zero (x ∷ ts) s h = cc
  turn_at-ne-nil b (suc i) (x ∷ ts) s h = cc

  append-one-ne-nil : (xs : List (Task S × Status)) (x : Task S × Status) → xs ++ x ∷ [] ≢ []
  append-one-ne-nil [] x h = ground arith
  append-one-ne-nil (y ∷ xs) x h = ground arith

  -- The tasks heed the shutdown event; none has failed unless the failure is known; none has
  -- returned unless the event is set.
  pub record IsSound (p : Process S) : Type 0 where
    pub heed : All HeedsAt p.tasks
    pub makes : All (Makes Heeds) p.starts
    pub clean : p.failure ≡ none → All NotFailed p.tasks
    pub waits : p.shutdown ≡ false → All NotReturned p.tasks
    pub some_task : p.tasks ≢ []

  started-IsSound :
      (p : Process S) (rest : List (Exec S (Task S)))
      → IsSound p
      → All (Makes Heeds) rest
      → (r : Result (Task S)) (s : S) → Ends (λ t _. Heeds t) (λ _ _. Unit {0}) (r, s)
      → IsSound (started p rest (r, s))
  started-IsSound p rest h hs (ok t) s k = record {
    heed = All-append HeedsAt p.tasks _ h.heed (k, tt);
    makes = hs;
    clean = λ e. All-append NotFailed p.tasks _ (h.clean e) ((λ x. cc), tt);
    waits = λ e. All-append NotReturned p.tasks _ (h.waits e) ((λ x. cc), tt);
    some_task = append-one-ne-nil p.tasks (t, running);
  }
  started-IsSound p rest h hs (err e) s k = record {
    heed = h.heed;
    makes = tt;
    clean = λ x. absurd (ground arith);
    waits = h.waits;
    some_task = h.some_task;
  }

  make_start-IsSound :
      (p : Process S) (starts : List (Exec S (Task S)))
      → IsSound p
      → All (Makes Heeds) starts
      → IsSound (make_start starts p)
  unfolding make_start
  make_start-IsSound p [] h hs = h
  make_start-IsSound p (m ∷ rest) h (k, hs) =
      started-IsSound p rest h hs (m p.world).0 (m p.world).1 (k p.world)

  turned-IsSound : (i : ℕ) (p : Process S) → IsSound p → IsSound (step (turn i) p)
  unfolding step
  turned-IsSound i p h = record {
    heed = turn_at-HeedsAt p.shutdown i p.tasks p.world h.heed;
    makes = h.makes;
    clean = λ e.
        let (before, fine) = failure-IsOk p.failure _ e in
        turn_at-NotFailed p.shutdown i p.tasks p.world (h.clean before) fine;
    waits = λ e.
        subst (λ b. All NotReturned (turn_at b i p.tasks p.world).1) (sym e)
          (turn_at-NotReturned i p.tasks p.world h.heed (h.waits e));
    some_task = turn_at-ne-nil p.shutdown i p.tasks p.world h.some_task;
  }

  step-IsSound : (e : Event) (p : Process S) → IsSound p → IsSound (step e p)
  unfolding step
  step-IsSound signal p h = record {
    heed = h.heed;
    makes = h.makes;
    clean = h.clean;
    waits = λ e. absurd (ground arith);
    some_task = h.some_task;
  }
  step-IsSound start_next p h = make_start-IsSound p p.starts h h.makes
  step-IsSound (turn i) p h = unfold step in turned-IsSound i p h

  pub run_events-IsSound : (es : List Event) (p : Process S) → IsSound p → IsSound (run_events es p)
  unfolding run_events
  run_events-IsSound [] p h = h
  run_events-IsSound (e ∷ es) p h = run_events-IsSound es (step e p) (step-IsSound e p h)

  launched :
      (ts : List (Task S))
      → All Heeds ts
      → All HeedsAt (map (λ t. (t, running)) ts)
        × All NotFailed (map (λ t. (t, running)) ts)
        × All NotReturned (map (λ t. (t, running)) ts)
  launched [] h = (tt, tt, tt)
  launched (t ∷ ts) (k, h) =
      let (a, b, c) = launched ts h in ((k, a), ((λ x. cc), b), ((λ x. cc), c))

  pub launch-IsSound :
      (starts : List (Exec S (Task S))) (t : Task S) (ts : List (Task S)) (s : S)
      → All (Makes Heeds) starts
      → All Heeds (t ∷ ts)
      → IsSound (launch starts (t ∷ ts) s)
  unfolding launch
  launch-IsSound starts t ts s made h =
      let (a, b, c) = launched (t ∷ ts) h in
      record {
        heed = a;
        makes = made;
        clean = λ _. b;
        waits = λ _. c;
        some_task = λ x. ground arith;
      }
