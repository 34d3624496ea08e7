-- ===== src/FileStorage/Entrypoint.antt =====
-- The entrypoint of the file storage adapter (file_storage_adapter/__main__.py, `run`): the four
-- command loops and the watch.
pub mod Ending
use jet_core_service_bus.Prelude.{ℕ, String, ◌<>◌, true, false, Option, none, some, List, [], ◌∷◌}
use jet_core_service_bus.Python.Exception.{Exception, Result, err}
use jet_core_service_bus.Python.Exec.{Exec, pure, ◌>>=◌}
use jet_core_service_bus.Python.Json.{JsonModule}
use jet_core_service_bus.Python.PurePath.{PosixPath}
use jet_core_service_bus.Jetcore.Bus.{Bus}
use jet_core_service_bus.Entrypoint.{
  Task, Process, going, finished, launch_after, loop, fetch_batch, fetch_timeout,
}
use jet_core_service_bus.FileStorage.FileSystem.{FileSystem}
use jet_core_service_bus.FileStorage.RecentWrites.{RecentWrites}
use jet_core_service_bus.FileStorage.Commands.Write.{Shared, inner}
use jet_core_service_bus.FileStorage.Commands.Write
use jet_core_service_bus.FileStorage.Commands.Read
use jet_core_service_bus.FileStorage.Commands.Listing
use jet_core_service_bus.FileStorage.Commands.Delete
use jet_core_service_bus.FileStorage.CreateWatch.{Watched, Change, run_forever}

unfoldable pub write_name : String → String
write_name service_id = service_id <> "-write-handler"

unfoldable pub read_name : String → String
read_name service_id = service_id <> "-read-handler"

unfoldable pub list_name : String → String
list_name service_id = service_id <> "-list-handler"

unfoldable pub delete_name : String → String
delete_name service_id = service_id <> "-delete-handler"

module _ {S : Type 0} where
  abbrev back : {A : Type 0} → Result A × Watched S → Result A × Shared S
  back (r, w) = (r, record { recent_writes = some w.recent_writes; state = w.state })

  abbrev on_record : {A : Type 0} → Exec (Watched S) A → Option RecentWrites → Exec (Shared S) A
  on_record m none c = (err Exception.blocked, c)
  on_record m (some r) c = back (m (record { recent_writes = r; state = c.state }))

  -- The watch works on the record of writes that the write handler marks; `run` makes that record.
  unfoldable pub watching : {A : Type 0} → Exec (Watched S) A → Exec (Shared S) A
  watching m c = on_record m c.recent_writes c

module _ {S : Type 0} (J : JsonModule) (F : FileSystem S) (B : Bus S) (watch_dir : PosixPath)
    (service_id : String) (fuel : ℕ) (changes : Exec S (List (Change × PosixPath))) where
  -- The starts of the four handlers, in their order
  unfoldable pub start_handlers : Exec (Shared S) (Unit {0})
  start_handlers = do
    _ ← Write.start J F B watch_dir (some (write_name service_id))
    _ ← inner (Read.start J F B watch_dir (some (read_name service_id)))
    _ ← inner (Listing.start J F B watch_dir (some (list_name service_id)))
    _ ← inner (Delete.start J F B watch_dir (some (delete_name service_id)))
    pure tt

  -- `watch.run_forever(stop_event=shutdown)`: a turn handles the changes that `awatch` yields next,
  -- and `awatch` ends when the event is set.
  unfoldable pub watch_task : Task (Shared S)
  watch_task true = pure finished
  watch_task false = do
    found ← inner changes
    _ ← watching (run_forever J F B watch_dir fuel found)
    pure going

  unfoldable pub command_tasks : List (Task (Shared S))
  command_tasks =
      loop (Write.run_handler J F B watch_dir (write_name service_id) fetch_batch fetch_timeout)
      ∷ loop (
          inner (Read.run_handler J F B watch_dir (read_name service_id) fetch_batch fetch_timeout))
      ∷ loop (
          inner
            (Listing.run_handler J F B watch_dir (list_name service_id) fetch_batch fetch_timeout))
      ∷ loop (
          inner
            (Delete.run_handler J F B watch_dir (delete_name service_id) fetch_batch fetch_timeout))
      ∷ watch_task
      ∷ []

  -- `run`
  unfoldable pub run_storage : Shared S → Process (Shared S)
  run_storage c = launch_after command_tasks (start_handlers c)
