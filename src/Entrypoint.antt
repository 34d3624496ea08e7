-- ===== src/Entrypoint.antt =====
-- The concurrent part of an adapter's process (`run` and the loops of the `__main__.py` files under
-- adapters/): tasks that take turns on the event loop, a shutdown event that a signal sets, and the
-- `asyncio.gather` that waits for them.
pub mod Shutdown
pub mod Reachable
pub mod Ending
pub mod Launched
pub mod Main
use jet_core_service_bus.Prelude.{
  ℕ, zero, suc, Bool, true, false, Option, none, some, List, [], ◌∷◌, ◌++◌, if◌then◌else◌, map,
}
use jet_core_service_bus.Python.Exception.{Exception, Result, ok, err}
use jet_core_service_bus.Python.Exec.{Exec, pure, ◌>>=◌}

abbrev pub fetch_batch : ℕ
fetch_batch = 10

-- In milliseconds
abbrev pub fetch_timeout : ℕ
fetch_timeout = 2000

pub data Progress : Type 0 where
  going : Progress
  finished : Progress

-- One turn of a task, given `shutdown.is_set()`
abbrev pub Task : Type 0 → Type 0
Task S = Bool → Exec S Progress

pub data Status : Type 0 where
  running : Status
  returned : Status
  failed : Status

-- `run` still has the starts to make; the tasks that it made have a status. `failure` is the first
-- exception of a task, or that of a start, which ends `run` at once.
pub record Process (S : Type 0) : Type 0 where
  pub shutdown : Bool
  pub starts : List (Exec S (Task S))
  pub tasks : List (Task S × Status)
  pub failure : Option Exception
  pub world : S

pub data Event : Type 0 where
  -- A SIGTERM or a SIGINT
  signal : Event
  -- `run` makes its next start.
  start_next : Event
  -- The task of that number takes a turn.
  turn : ℕ → Event

abbrev pub status_after : Result Progress → Status
status_after (ok going) = running
status_after (ok finished) = returned
status_after (err e) = failed

abbrev pub first_failure : Option Exception → Result Progress → Option Exception
first_failure (some e) r = some e
first_failure none (ok g) = none
first_failure none (err e) = some e

abbrev pub has_returned : Status → Bool
has_returned returned = true
has_returned _ = false

abbrev outcome : Option Exception → Bool → Option (Result (Unit {0}))
outcome (some e) done = some (err e)
outcome none true = some (ok tt)
outcome none false = none

module _ {S : Type 0} where
  -- `while not shutdown.is_set(): await handler.run_once(…)`
  unfoldable pub loop : Exec S ℕ → Task S
  loop run_once true = pure finished
  loop run_once false = do _ ← run_once; pure going

  -- `await shutdown.wait()`
  unfoldable pub wait_for_shutdown : Task S
  wait_for_shutdown true = pure finished
  wait_for_shutdown false = pure going

  -- A task that has ended takes no turn.
  abbrev pub take_turn : Bool → Task S × Status → S → Result Progress × (Task S × Status) × S
  take_turn shutdown (t, running) s = let (r, s') = t shutdown s in (r, (t, status_after r), s')
  take_turn shutdown (t, returned) s = (ok going, (t, returned), s)
  take_turn shutdown (t, failed) s = (ok going, (t, failed), s)

  unfoldable pub turn_at :
      Bool → ℕ → List (Task S × Status) → S → Result Progress × List (Task S × Status) × S
  turn_at shutdown i [] s = (ok going, [], s)
  turn_at shutdown zero (t ∷ ts) s = let (r, t', s') = take_turn shutdown t s in (r, t' ∷ ts, s')
  turn_at shutdown (suc i) (t ∷ ts) s =
      let (r, ts', s') = turn_at shutdown i ts s in (r, t ∷ ts', s')

  abbrev started : Process S → List (Exec S (Task S)) → Result (Task S) × S → Process S
  started p rest (ok t, s) = record p {
    starts = rest;
    tasks = p.tasks ++ (t, running) ∷ [];
    world = s;
  }
  started p rest (err e, s) = record p { starts = []; failure = some e; world = s }

  -- A start that raises ends `run`: the later ones are not made.
  unfoldable pub make_start : List (Exec S (Task S)) → Process S → Process S
  make_start [] p = p
  make_start (m ∷ rest) p = started p rest (m p.world)

  abbrev turned : Process S → Result Progress × List (Task S × Status) × S → Process S
  turned p (r, ts, s) = record p { tasks = ts; failure = first_failure p.failure r; world = s }

  unfoldable pub step : Event → Process S → Process S
  step signal p = record p { shutdown = true }
  step start_next p = make_start p.starts p
  step (turn i) p = turned p (turn_at p.shutdown i p.tasks p.world)

  -- The first event of the list comes first.
  unfoldable pub run_events : List Event → Process S → Process S
  run_events [] p = p
  run_events (e ∷ es) p = run_events es (step e p)

  unfoldable pub all_returned : List (Task S × Status) → Bool
  all_returned [] = true
  all_returned ((t, st) ∷ ts) = if has_returned st then all_returned ts else false

  abbrev no_starts : List (Exec S (Task S)) → Bool
  no_starts [] = true
  no_starts (m ∷ ms) = false

  -- What `run` has come to: `none` while it waits.
  unfoldable pub gathered : Process S → Option (Result (Unit {0}))
  gathered p = if no_starts p.starts then outcome p.failure (all_returned p.tasks) else none

  -- `run` from its beginning
  unfoldable pub launch : List (Exec S (Task S)) → List (Task S) → S → Process S
  launch starts ts s = record {
    shutdown = false;
    starts = starts;
    tasks = map (λ t. (t, running)) ts;
    failure = none;
    world = s;
  }

  -- `run` where the tasks are made once all starts have returned: one that raises ends it.
  unfoldable pub launch_after : List (Task S) → Result (Unit {0}) × S → Process S
  launch_after ts (ok _, s) = launch [] ts s
  launch_after ts (err e, s) = record {
    shutdown = false;
    starts = [];
    tasks = [];
    failure = some e;
    world = s;
  }
