-- ===== src/FileStorage/Commands/Delete/Containment.antt =====
-- What a delete command may remove (file_storage_adapter/delete_handler.py, `_handle`).
use jet_core_service_bus.Prelude.{◌≡◌, String, Bool, true, false}
use jet_core_service_bus.Python.Exception.{ok, err, is_os_error}
use jet_core_service_bus.Python.Exec.{always, ◌>>=◌, lift}
use jet_core_service_bus.Python.Exec.Keeps.{Keeps, bind-Keeps, except_return-Keeps}
use jet_core_service_bus.Python.Exec.Hoare.{Keeps-Triple, Triple-Keeps, except_return-Ends}
use jet_core_service_bus.Python.Json.{JsonModule}
use jet_core_service_bus.Python.PurePath.{PosixPath, Within}
use jet_core_service_bus.Jetcore.Bus.{Bus}
use jet_core_service_bus.Jetcore.BusClient.{ReceivedEvent}
use jet_core_service_bus.Jetcore.BusClient.Sealing.{Publication}
use jet_core_service_bus.FileStorage.FileSystem.{FileSystem}
use jet_core_service_bus.FileStorage.Paths.{resolve_within}
use jet_core_service_bus.FileStorage.Paths.Containment.{resolve_within-Ends}
use jet_core_service_bus.FileStorage.Payloads.{
  operation_failed_subject, encode_operation_failed, encode_delete_completed,
  decode_path_only_request,
}
use jet_core_service_bus.Adapter.{report, is_malformed, is_path_traversal}
use jet_core_service_bus.FileStorage.Commands.Delete.{
  delete_completed_subject, not_found, report_deleted, delete_target, delete_within, handle,
}

-- `Q` is left true by every call that the handler may make, where the only files that it may remove
-- are those within the root `r`.
pub record Allows {S : Type 0} (F : FileSystem S) (B : Bus S) (watch_dir r : PosixPath)
    (event : ReceivedEvent) (Q : S → Type 0) : Type 0 where
  pub rooted : (s : S) → Q s → (F.resolve watch_dir s).0 ≡ ok r
  pub resolve : (p : PosixPath) → Keeps Q (F.resolve p)
  pub is_file : (p : PosixPath) → Keeps Q (F.is_file p)
  pub unlink : (p : PosixPath) → Within r p → Keeps Q (F.unlink p)
  pub now_iso : Keeps Q (always F.now_iso)
  pub publish : (p : Publication) → Keeps Q (B.publish p)
  pub ack : Keeps Q (B.ack event)
  pub nak : Keeps Q (B.nak event)

module _ {S : Type 0} (J : JsonModule) (F : FileSystem S) (B : Bus S) (watch_dir r : PosixPath)
    (event : ReceivedEvent) (Q : S → Type 0) (a : Allows F B watch_dir r event Q) where
  announce-Keeps :
      (f : String → Publication)
      → Keeps {S = S} {A = Unit {0}} Q
          (do occurred_at ← always F.now_iso; _ ← B.publish (f occurred_at); B.ack event)
  announce-Keeps f =
      bind-Keeps Q (always F.now_iso) (λ now. do _ ← B.publish (f now); B.ack event) a.now_iso
        λ now. bind-Keeps Q (B.publish (f now)) (λ _. B.ack event) (a.publish (f now)) λ _. a.ack

  delete_target-Keeps :
      (path : String) (target : PosixPath) (there : Bool)
      → Within r target
      → Keeps Q (delete_target J F B watch_dir path event target there)
  unfolding delete_target not_found report_deleted
  delete_target-Keeps path target false within s q =
      announce-Keeps
        (λ now.
          report operation_failed_subject (encode_operation_failed J path "delete" "not_found" now)
            "FileOperationFailed" event)
        s q
  delete_target-Keeps path target true within s q =
      except_return-Keeps Q (F.unlink target) is_os_error (B.nak event)
        (λ _. report_deleted J F B watch_dir path event) (a.unlink target within) a.nak
        (λ _ s' q'.
          announce-Keeps
            (λ now.
              report delete_completed_subject (encode_delete_completed J path now)
                "FileDeleteCompleted" event)
            s' q')
        s q

  delete_within-Keeps : (path : String) → Keeps Q (delete_within J F B watch_dir path event)
  unfolding delete_within
  delete_within-Keeps path = Triple-Keeps Q (delete_within J F B watch_dir path event) λ s q.
      except_return-Ends
        (λ target s'. Within r target × ((resolve_within F watch_dir path s).0 ≡ ok target) × Q s')
        (λ _. Q) (λ e s'. ((resolve_within F watch_dir path s).0 ≡ err e) × Q s') (λ _. Q)
        (resolve_within F watch_dir path) is_path_traversal (B.ack event) _
        (λ e _ s' (_, q'). Keeps-Triple Q (B.ack event) a.ack s' q') (λ e s' _ x. x.1)
        (λ target s' (within, _, q').
          Keeps-Triple Q
            (do there ← F.is_file target; delete_target J F B watch_dir path event target there)
            (bind-Keeps Q (F.is_file target) (delete_target J F B watch_dir path event target)
              (a.is_file target) (λ there. delete_target-Keeps path target there within))
            s' q')
        s (resolve_within-Ends F Q a.resolve watch_dir r a.rooted path s q)

  -- What the calls of the handler leave true of the world, where only files within the root are
  -- removed, the delete handler leaves true, on every branch: it removes no other file.
  pub handle-Keeps : Keeps Q (handle J F B watch_dir event)
  unfolding handle
  handle-Keeps =
      except_return-Keeps Q (lift (decode_path_only_request J false event.payload)) is_malformed
        (B.ack event) (λ path. delete_within J F B watch_dir path event) (λ s q. q) a.ack
        delete_within-Keeps
