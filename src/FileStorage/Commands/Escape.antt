-- ===== src/FileStorage/Commands/Escape.antt =====
-- What happens to a command whose payload is not in UTF-8 (read_handler.py, delete_handler.py and
-- list_handler.py, `_handle`).
use jet_core_service_bus.Prelude.{refl, ◌≡◌, true, false}
use jet_core_service_bus.Python.Exception.{Exception, err}
use jet_core_service_bus.Python.Json.{JsonModule}
use jet_core_service_bus.Python.PurePath.{PosixPath}
use jet_core_service_bus.Jetcore.Bus.{Bus}
use jet_core_service_bus.Jetcore.BusClient.{ReceivedEvent}
use jet_core_service_bus.FileStorage.FileSystem.{FileSystem}
use jet_core_service_bus.FileStorage.Payloads.Decoding.{decode_path_only_request-unicode}
use jet_core_service_bus.FileStorage.Commands.Read
use jet_core_service_bus.FileStorage.Commands.Delete
use jet_core_service_bus.FileStorage.Commands.Listing

module _ {S : Type 0} (J : JsonModule) (F : FileSystem S) (B : Bus S) (watch_dir : PosixPath)
    (event : ReceivedEvent) (s : S)
    (not_utf_8 : J.loads event.payload ≡ err Exception.unicode_decode_error) where
  read-unicode : Read.handle J F B watch_dir event s ≡ (err Exception.unicode_decode_error, s)
  unfolding Read.handle
  read-unicode = rw (decode_path_only_request-unicode J false event.payload not_utf_8) refl

  delete-unicode : Delete.handle J F B watch_dir event s ≡ (err Exception.unicode_decode_error, s)
  unfolding Delete.handle
  delete-unicode = rw (decode_path_only_request-unicode J false event.payload not_utf_8) refl

  listing-unicode : Listing.handle J F B watch_dir event s ≡ (err Exception.unicode_decode_error, s)
  unfolding Listing.handle
  listing-unicode = rw (decode_path_only_request-unicode J true event.payload not_utf_8) refl

  -- On a payload that `json.loads` refuses with a `UnicodeDecodeError`, the read, the delete and
  -- the list handler raise that exception and leave the world as it was.
  pub handle-unicode :
      (Read.handle J F B watch_dir event s ≡ (err Exception.unicode_decode_error, s))
      × (Delete.handle J F B watch_dir event s ≡ (err Exception.unicode_decode_error, s))
      × (Listing.handle J F B watch_dir event s ≡ (err Exception.unicode_decode_error, s))
  handle-unicode = (read-unicode, delete-unicode, listing-unicode)
