-- ===== src/DbAdapter/Entrypoint.antt =====
-- The entrypoint of the database adapter (db_adapter_mysql/__main__.py, `run`): the write loop, the
-- change-data capture on its thread, and the bridge that hands the shutdown on to it.
use jet_core_service_bus.Prelude.{ℕ, String, ◌<>◌, true, false, some, List, [], ◌∷◌, if◌then◌else◌}
use jet_core_service_bus.Python.Exec.{Exec, pure, ◌>>=◌, except, any_raise, raise}
use jet_core_service_bus.Python.Json.{JsonModule}
use jet_core_service_bus.Jetcore.Bus.{Bus}
use jet_core_service_bus.Entrypoint.{
  Task, Process, going, finished, launch_after, loop, fetch_batch, fetch_timeout,
}
use jet_core_service_bus.DbAdapter.Write.{Database, start, run_handler}
use jet_core_service_bus.DbAdapter.Cdc.{Binlog, round, request_shutdown}

unfoldable pub write_durable : String → String
write_durable service_id = service_id <> "-write-handler"

module _ {S : Type 0} (J : JsonModule) (D : Database S) (B : Bus S) (L : Binlog S)
    (service_id : String) (events : ℕ) where
  -- `watcher.run()`: a turn is one round of its loop. It reads its own event, not the shutdown.
  unfoldable pub watcher_task : Task S
  watcher_task shutdown = do
    more ← except (round J B L events) any_raise (λ e. do _ ← L.close; raise e)
    if more then pure going else (do _ ← L.close; pure finished)

  -- `_bridge_shutdown`
  unfoldable pub bridge_shutdown : Task S
  bridge_shutdown true = do _ ← request_shutdown J B L; pure finished
  bridge_shutdown false = pure going

  unfoldable pub adapter_tasks : List (Task S)
  adapter_tasks =
      loop (run_handler J D B (write_durable service_id) fetch_batch fetch_timeout)
      ∷ watcher_task
      ∷ bridge_shutdown
      ∷ []

  unfoldable pub start_handler : Exec S (Unit {0})
  start_handler = do _ ← start J D B (some (write_durable service_id)); pure tt

  -- `run`
  unfoldable pub run_database : S → Process S
  run_database s = launch_after adapter_tasks (start_handler s)
