-- ===== src/FileStorage/Commands/Write/Outcome.antt =====
-- The outcomes of the handling of a write command (file_storage_adapter/write_handler.py).
use jet_core_service_bus.Prelude.{◌≡◌, ◌⊎◌, Bool, String, true}
use jet_core_service_bus.Python.Exception.{is_os_error, Exception, ok, err}
use jet_core_service_bus.Python.Json.{JsonModule}
use jet_core_service_bus.Python.PurePath.{PosixPath}
use jet_core_service_bus.Jetcore.Bus.{Bus}
use jet_core_service_bus.Jetcore.BusClient.{ReceivedEvent}
use jet_core_service_bus.FileStorage.FileSystem.{FileSystem}
use jet_core_service_bus.FileStorage.Paths.{resolve_within}
use jet_core_service_bus.FileStorage.Payloads.{WriteRequest, decode_write_requested}
use jet_core_service_bus.FileStorage.Commands.Write.{Shared, completed}
use jet_core_service_bus.FileStorage.Commands.Write.Protocol.{Protocol}

-- The handling starts in `c`.
module _ {S : Type 0} (J : JsonModule) (F : FileSystem S) (B : Bus S) (watch_dir r : PosixPath)
    (event : ReceivedEvent) (p : Protocol F B watch_dir r event) (c : Shared S) where
  -- The payload holds the request, and its path resolves to the target.
  abbrev pub IsCommand : WriteRequest → PosixPath → Type 0
  IsCommand request target =
      (decode_write_requested J event.payload ≡ ok request)
      × ((resolve_within F watch_dir request.path c.state).0 ≡ ok target)

  -- The command is one that no redelivery would help: its payload is malformed, or its path leads
  -- out of the watched directory.
  abbrev pub IsRefused : Type 0
  IsRefused =
      (decode_write_requested J event.payload ≡ err Exception.malformed_payload_error)
      ⊎ ((request : WriteRequest) × (decode_write_requested J event.payload ≡ ok request)
          × ((resolve_within F watch_dir request.path c.state).0
              ≡ err Exception.path_traversal_error))

  -- Completed with the content that the command holds, at the path that it names, and with the
  -- report of that request and of what the look at the path had said
  abbrev pub IsCompleted : Shared S → Type 0
  IsCompleted c' =
      (request : WriteRequest) × (target : PosixPath) × (existed : Bool) × (now : String)
      × IsCommand request target
      × p.Completed target existed request.content now (completed J request existed event now)
          c'.state

  -- Given back after an `OSError` at the path that the command names
  abbrev pub IsRetried : Shared S → Type 0
  IsRetried c' =
      (request : WriteRequest) × (target : PosixPath) × (e : Exception) × IsCommand request target
      × (is_os_error e ≡ true)
      × p.Retried target e c'.state

  -- The command is settled.
  abbrev pub Finished : Shared S → Type 0
  Finished c' = (IsRefused × p.Rejected c'.state) ⊎ IsCompleted c' ⊎ IsRetried c'

  -- The command is not settled: it was only received, or making or writing failed, or the content is
  -- written and the report not published, or the report is published and not acknowledged.
  abbrev pub Open : Shared S → Type 0
  Open c' =
      p.Received c'.state
      ⊎ ((request : WriteRequest) × (target : PosixPath) × IsCommand request target
          × (e : Exception) × p.Failed target e c'.state)
      ⊎ ((request : WriteRequest) × (target : PosixPath) × IsCommand request target
          × (existed : Bool) × (now : String) × (p.Stamped target existed request.content now
                c'.state
              ⊎ p.Published target existed request.content now
                  (completed J request existed event now) c'.state))
