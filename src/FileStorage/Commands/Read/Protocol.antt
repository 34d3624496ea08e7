-- ===== src/FileStorage/Commands/Read/Protocol.antt =====
-- The stages that the handling of one read command goes through (file_storage_adapter/read_handler.py).
use jet_core_service_bus.Prelude.{◌≡◌, ◌⊎◌, String, Bool, true, false, Option, none, some}
use jet_core_service_bus.Python.Exception.{Exception, ok, err, is_os_error}
use jet_core_service_bus.Python.Exec.Keeps.{Keeps}
use jet_core_service_bus.Python.Exec.Hoare.{Triple}
use jet_core_service_bus.Python.Json.{Bytes, JsonModule}
use jet_core_service_bus.Python.PurePath.{PosixPath, Within}
use jet_core_service_bus.Jetcore.Bus.{Bus}
use jet_core_service_bus.Jetcore.BusClient.{ReceivedEvent}
use jet_core_service_bus.Jetcore.BusClient.Sealing.{Publication}
use jet_core_service_bus.FileStorage.FileSystem.{FileSystem}
use jet_core_service_bus.FileStorage.Paths.{resolve_within}
use jet_core_service_bus.FileStorage.Payloads.{
  operation_failed_subject, decode_path_only_request, encode_read_completed,
  encode_operation_failed,
}
use jet_core_service_bus.FileStorage.Commands.Read.{read_completed_subject}
use jet_core_service_bus.Adapter.{report}

-- What is reported of a path: that no file is there, or the content of the file
abbrev pub read_report : JsonModule → String → Option Bytes → String → ReceivedEvent → Publication
read_report J path none now event =
    report operation_failed_subject (encode_operation_failed J path "read" "not_found" now)
      "FileOperationFailed" event
read_report J path (some content) now event =
    report read_completed_subject (encode_read_completed J path content now) "FileReadCompleted"
      event

-- What can be told of a state of the world while one read command is handled: it was received; a path
-- was looked at, with the answer whether a file is there; a file was read, or reading it failed; the
-- time was read, with what is then known of the path; a report was published. In the end the command
-- was rejected, completed, or given back for a redelivery, after a failure that is an `OSError` and
-- no other. Only a path within the root `r` may be looked at and read.
pub record ReadProtocol {S : Type 0} (F : FileSystem S) (B : Bus S) (watch_dir r : PosixPath)
    (event : ReceivedEvent) : Type 1 where
  pub Received : S → Type 0
  pub Looked : PosixPath → Bool → S → Type 0
  pub HasRead : PosixPath → Bytes → S → Type 0
  pub Failed : PosixPath → Exception → S → Type 0
  pub Stamped : PosixPath → Option Bytes → String → S → Type 0
  pub Published : PosixPath → Option Bytes → String → Publication → S → Type 0
  pub Completed : PosixPath → Option Bytes → String → Publication → S → Type 0
  pub Rejected : S → Type 0
  pub Retried : PosixPath → Exception → S → Type 0
  pub rooted : (s : S) → Received s → (F.resolve watch_dir s).0 ≡ ok r
  pub resolve : (p : PosixPath) → Keeps Received (F.resolve p)
  pub is_file :
      (p : PosixPath) → Within r p → Triple Received (F.is_file p) (Looked p) (λ _. Received)
  pub read_bytes :
      (p : PosixPath) → Within r p → Triple (Looked p true) (F.read_bytes p) (HasRead p) (Failed p)
  pub now_missing :
      (p : PosixPath) (s : S) → Looked p false s → Stamped p none (F.now_iso s).0 (F.now_iso s).1
  pub now_read :
      (p : PosixPath) (content : Bytes) (s : S)
      → HasRead p content s
      → Stamped p (some content) (F.now_iso s).0 (F.now_iso s).1
  pub publish :
      (p : PosixPath) (told : Option Bytes) (now : String) (sent : Publication)
      → Triple
          (Stamped p told now)
          (B.publish sent)
          (λ _. Published p told now sent)
          (λ _. Stamped p told now)
  pub complete :
      (p : PosixPath) (told : Option Bytes) (now : String) (sent : Publication)
      → Triple
          (Published p told now sent)
          (B.ack event)
          (λ _. Completed p told now sent)
          (λ _. Published p told now sent)
  pub reject : Triple Received (B.ack event) (λ _. Rejected) (λ _. Received)
  pub retry :
      (p : PosixPath) (e : Exception)
      → is_os_error e ≡ true
      → Triple (Failed p e) (B.nak event) (λ _. Retried p e) (λ _. Failed p e)

-- The handling starts in `before`.
module _ {S : Type 0} (J : JsonModule) (F : FileSystem S) (B : Bus S) (watch_dir r : PosixPath)
    (event : ReceivedEvent) (p : ReadProtocol F B watch_dir r event) (before : S) where
  -- The payload holds the path, and it resolves to the target.
  abbrev pub IsPath : String → PosixPath → Type 0
  IsPath path target =
      (decode_path_only_request J false event.payload ≡ ok path)
      × ((resolve_within F watch_dir path before).0 ≡ ok target)

  -- The payload is malformed, or its path leads out of the watched directory.
  abbrev pub IsUnreadable : Type 0
  IsUnreadable =
      (decode_path_only_request J false event.payload ≡ err Exception.malformed_payload_error)
      ⊎ ((path : String) × (decode_path_only_request J false event.payload ≡ ok path)
          × ((resolve_within F watch_dir path before).0 ≡ err Exception.path_traversal_error))

  -- The command is settled: rejected, completed with the report of what is known of the path that it
  -- names, or given back after an `OSError` at this path.
  abbrev pub ReadSettled : S → Type 0
  ReadSettled s =
      (IsUnreadable × p.Rejected s)
      ⊎ ((path : String) × (target : PosixPath) × IsPath path target
          × (told : Option Bytes) × (now : String) × p.Completed target told now
              (read_report J path told now event) s)
      ⊎ ((path : String) × (target : PosixPath) × IsPath path target
          × (e : Exception) × (is_os_error e ≡ true)
          × p.Retried target e s)

  -- The command is not settled.
  abbrev pub ReadOpen : S → Type 0
  ReadOpen s =
      p.Received s
      ⊎ ((path : String) × (target : PosixPath) × IsPath path target
          × (e : Exception) × p.Failed target e s)
      ⊎ ((path : String) × (target : PosixPath) × IsPath path target
          × (told : Option Bytes) × (now : String) × (p.Stamped target told now s
              ⊎ p.Published target told now (read_report J path told now event) s))
