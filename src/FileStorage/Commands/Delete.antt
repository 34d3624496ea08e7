-- ===== src/FileStorage/Commands/Delete.antt =====
-- The delete command (file_storage_adapter/delete_handler.py).
pub mod Containment
use jet_core_service_bus.Prelude.{ℕ, String, Bool, true, false, Option}
use jet_core_service_bus.Python.Exception.{is_os_error}
use jet_core_service_bus.Python.Exec.{Exec, lift, ◌>>=◌, except_return, always}
use jet_core_service_bus.Python.Json.{JsonModule}
use jet_core_service_bus.Python.PurePath.{PosixPath}
use jet_core_service_bus.Jetcore.Bus.{Bus}
use jet_core_service_bus.Jetcore.BusClient.{ReceivedEvent}
use jet_core_service_bus.FileStorage.FileSystem.{FileSystem}
use jet_core_service_bus.FileStorage.Paths.{resolve_within}
use jet_core_service_bus.FileStorage.Payloads.{
  operation_failed_subject, decode_path_only_request, encode_delete_completed,
  encode_operation_failed,
}
use jet_core_service_bus.Adapter.{is_malformed, is_path_traversal, report, run_once}

abbrev pub delete_requested_subject : String
delete_requested_subject = "events.files.FileDeleteRequested"

abbrev pub delete_completed_subject : String
delete_completed_subject = "events.files.FileDeleteCompleted"

module _ {S : Type 0} (J : JsonModule) (F : FileSystem S) (B : Bus S) (watch_dir : PosixPath) where
  -- The report of a file that is not there, or is no file
  unfoldable pub not_found : String → ReceivedEvent → Exec S (Unit {0})
  not_found path event = do
    occurred_at ← always F.now_iso
    _ ← B.publish (
        report operation_failed_subject
          (encode_operation_failed J path "delete" "not_found" occurred_at) "FileOperationFailed"
          event)
    B.ack event

  unfoldable pub report_deleted : String → ReceivedEvent → Exec S (Unit {0})
  report_deleted path event = do
    occurred_at ← always F.now_iso
    _ ← B.publish (
        report delete_completed_subject (encode_delete_completed J path occurred_at)
          "FileDeleteCompleted" event)
    B.ack event

  unfoldable pub delete_target : String → ReceivedEvent → PosixPath → Bool → Exec S (Unit {0})
  delete_target path event target false = not_found path event
  delete_target path event target true =
      except_return (F.unlink target) is_os_error (B.nak event) λ _. report_deleted path event

  unfoldable pub delete_within : String → ReceivedEvent → Exec S (Unit {0})
  delete_within path event =
      except_return (resolve_within F watch_dir path) is_path_traversal (B.ack event)
        λ target. do there ← F.is_file target; delete_target path event target there

  -- `_handle`
  unfoldable pub handle : ReceivedEvent → Exec S (Unit {0})
  handle event =
      except_return (lift (decode_path_only_request J false event.payload)) is_malformed
        (B.ack event) λ path. delete_within path event

  unfoldable pub start : Option String → Exec S String
  start durable_name = B.subscribe delete_requested_subject durable_name

  unfoldable pub run_handler : String → ℕ → ℕ → Exec S ℕ
  run_handler durable_name batch timeout = run_once handle (B.fetch durable_name batch timeout)
