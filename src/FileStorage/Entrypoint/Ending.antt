-- ===== src/FileStorage/Entrypoint/Ending.antt =====
-- The file storage adapter ends after a signal (file_storage_adapter/__main__.py, `run`).
use jet_core_service_bus.Prelude.{ℕ, ◌<◌, ◌≡◌, ◌≢◌, refl, true, none, List, All, String, arith}
use jet_core_service_bus.Python.Exception.{ok}
use jet_core_service_bus.Python.Exec.{Exec, pure}
use jet_core_service_bus.Python.Exec.Hoare.{Triple, bind-Triple, Ends}
use jet_core_service_bus.Python.Json.{JsonModule}
use jet_core_service_bus.Python.PurePath.{PosixPath}
use jet_core_service_bus.Jetcore.Bus.{Bus}
use jet_core_service_bus.Entrypoint.{Event, run_events, gathered, launch, launch_after, going}
use jet_core_service_bus.Entrypoint.Shutdown.{Heeds, loop-Heeds}
use jet_core_service_bus.Entrypoint.Ending.{has_signal, has_turn}
use jet_core_service_bus.Entrypoint.Launched.{gathered-launch}
use jet_core_service_bus.FileStorage.FileSystem.{FileSystem}
use jet_core_service_bus.FileStorage.Commands.Write.{Shared, inner}
use jet_core_service_bus.FileStorage.CreateWatch.{Change, run_forever}
use jet_core_service_bus.FileStorage.Entrypoint.{
  watching, start_handlers, watch_task, command_tasks, run_storage, Result, err,
}

module _ {S : Type 0} (J : JsonModule) (F : FileSystem S) (B : Bus S) (watch_dir : PosixPath)
    (service_id : String) (fuel : ℕ) (changes : Exec S (List (Change × PosixPath))) where
  anything :
      {A : Type 0} (m : Exec (Shared S) A)
      → Triple (λ _. Unit {0}) m (λ _ _. Unit {0}) (λ _ _. Unit {0})
  anything {A = A} m s h = ends (m s).0 (m s).1
    where
      ends : (r : Result A) (s' : Shared S) → Ends (λ _ _. Unit {0}) (λ _ _. Unit {0}) (r, s')
      ends (ok a) s' = tt
      ends (err e) s' = tt

  watch_task-Heeds : Heeds (watch_task J F B watch_dir service_id fuel changes)
  unfolding watch_task
  watch_task-Heeds = record {
    stops = λ s. refl;
    persists = λ s.
        bind-Triple (λ _. Unit {0}) (λ _ _. Unit {0}) (λ g _. g ≡ going) (λ _ _. Unit {0})
          (inner changes) _ (anything (inner changes))
          (λ found.
            bind-Triple (λ _. Unit {0}) (λ _ _. Unit {0}) (λ g _. g ≡ going) (λ _ _. Unit {0})
              (watching (run_forever J F B watch_dir fuel found)) (λ _. pure going)
              (anything (watching (run_forever J F B watch_dir fuel found))) (λ _ _ _. refl))
          s tt;
  }

  command_tasks-Heed : All Heeds (command_tasks J F B watch_dir service_id fuel changes)
  unfolding command_tasks
  command_tasks-Heed =
      (loop-Heeds _, (loop-Heeds _, (loop-Heeds _, (loop-Heeds _, (watch_task-Heeds, tt)))))

  -- Let the four handlers of the file storage adapter start, and let some events include a signal.
  -- After any further events in which each of the five tasks has a turn, `run` has ended, and these
  -- events changed nothing in the world.
  pub gathered-run_storage :
      (c c' : Shared S) (before after : List Event)
      → start_handlers J F B watch_dir service_id fuel changes c ≡ (ok tt, c')
      → has_signal before ≡ true
      → ((i : ℕ) → i < 5 → has_turn i after ≡ true)
      → let p = run_events before (run_storage J F B watch_dir service_id fuel changes c) in
        (gathered (run_events after p) ≢ none) × ((run_events after p).world ≡ p.world)
  unfolding run_storage launch_after launch
  gathered-run_storage c c' before after begun sent turns = rw begun (
      gathered-launch (command_tasks J F B watch_dir service_id fuel changes) c' before after
        (λ e. absurd (unfold command_tasks in ground (arith, e))) command_tasks-Heed sent
        (unfold command_tasks in turns))
