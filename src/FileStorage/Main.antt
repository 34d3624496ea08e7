-- ===== src/FileStorage/Main.antt =====
-- The settings of the file storage adapter and its `main` (file_storage_adapter/settings.py,
-- file_storage_adapter/__main__.py).
pub mod Closing
use jet_core_service_bus.Prelude.{ℕ, List, [], some, String}
use jet_core_service_bus.Python.Exec.{Exec}
use jet_core_service_bus.Python.PurePath.{PosixPath}
use jet_core_service_bus.Jetcore.Config.{AdapterSettings}
use jet_core_service_bus.Jetcore.Bus.{client_bus}
use jet_core_service_bus.Jetcore.BusClient.{Outside, Client, Run}
use jet_core_service_bus.Jetcore.BusClient.Connection.{with_client}
use jet_core_service_bus.Jetcore.BusClient.Sealing.{Account}
use jet_core_service_bus.Entrypoint.{Event, run_events, gathered}
use jet_core_service_bus.Entrypoint.Main.{close_after}
use jet_core_service_bus.FileStorage.FileSystem.{FileSystem}
use jet_core_service_bus.FileStorage.RecentWrites.{default_ttl}
use jet_core_service_bus.FileStorage.Commands.Write.{Shared}
use jet_core_service_bus.FileStorage.CreateWatch.{Change}
use jet_core_service_bus.FileStorage.Entrypoint.{run_storage}

-- `base` has the fields of `AdapterSettings`; pydantic has found `watch_dir` to be a directory.
pub record FileStorageSettings : Type 0 where
  pub base : AdapterSettings
  pub watch_dir : PosixPath

abbrev pub adapter_type : String
adapter_type = "file-storage-adapter"

module _ (O : Outside) (F : FileSystem (Client O)) (fuel : ℕ)
    (changes : Exec (Client O) (List (Change × PosixPath))) where
  -- `run` makes the record of writes that the write handler and the watch share.
  abbrev pub shared : Client O → Shared (Client O)
  shared c = record {
    recent_writes = some (record { ttl = default_ttl; marked_at = [] });
    state = c;
  }

  unfoldable pub run_and_close : FileStorageSettings → Account → List Event → Run O (Unit {0})
  run_and_close settings account events c =
      let p = run_events events (
        run_storage O.json F (client_bus O account) settings.watch_dir settings.base.service_id fuel
          changes (shared c)) in
      close_after O (gathered p) p.world.state

  unfoldable pub main : FileStorageSettings → List Event → Exec O.platform.State (Unit {0})
  main settings events =
      with_client O settings.base adapter_type λ account. run_and_close settings account events
