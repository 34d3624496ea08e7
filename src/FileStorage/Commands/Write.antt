-- ===== src/FileStorage/Commands/Write.antt =====
-- The write command (file_storage_adapter/write_handler.py).
pub mod Outcome
pub mod Protocol
pub mod Settlement
pub mod Storing
use jet_core_service_bus.Prelude.{ℤ, ℕ, String, Bool, Option, none, some, length, if◌then◌else◌}
use jet_core_service_bus.Python.Exception.{is_os_error, ok}
use jet_core_service_bus.Python.Exec.{Exec, pure, lift, ◌>>=◌, except_return, always}
use jet_core_service_bus.Python.Json.{Bytes, JsonModule}
use jet_core_service_bus.Python.PurePath.{PosixPath, parent}
use jet_core_service_bus.Jetcore.Bus.{Bus}
use jet_core_service_bus.Jetcore.BusClient.{ReceivedEvent}
use jet_core_service_bus.Jetcore.BusClient.Sealing.{Publication}
use jet_core_service_bus.FileStorage.FileSystem.{FileSystem}
use jet_core_service_bus.FileStorage.Paths.{resolve_within}
use jet_core_service_bus.FileStorage.Payloads.{
  WriteRequest, decode_write_requested, encode_completed,
}
use jet_core_service_bus.FileStorage.RecentWrites.{RecentWrites, mark}
use jet_core_service_bus.Adapter.{is_malformed, is_path_traversal, report, run_once}

abbrev pub write_requested_subject : String
write_requested_subject = "events.files.FileWriteRequested"

abbrev pub create_completed_subject : String
create_completed_subject = "events.files.FileCreateCompleted"

abbrev pub write_completed_subject : String
write_completed_subject = "events.files.FileWriteCompleted"

-- The world, and the record of writes that the handler shares with the watch
pub record Shared (S : Type 0) : Type 0 where
  pub recent_writes : Option RecentWrites
  pub state : S

module _ {S : Type 0} where
  unfoldable pub inner : {A : Type 0} → Exec S A → Exec (Shared S) A
  inner m c = let (r, s) = m c.state in (r, record c { state = s })

  set_recent_writes : RecentWrites → Exec (Shared S) (Unit {0})
  set_recent_writes r c = (ok tt, record c { recent_writes = some r })

module _ {S : Type 0} (F : FileSystem S) where
  -- `target.parent.mkdir(…)`, and the file's contents
  unfoldable pub write_file : PosixPath → Bytes → Exec S (Unit {0})
  write_file target content = do _ ← F.mkdir (parent target); F.write_bytes target content

  mark_in : PosixPath → Option RecentWrites → Exec (Shared S) (Unit {0})
  unfolding inner set_recent_writes
  mark_in target none = pure tt
  mark_in target (some r) = do
    now ← inner (always F.monotonic)
    set_recent_writes (mark target now r)

  -- `self._recent_writes.mark(target)`, where there is such a record
  unfoldable pub mark_written : PosixPath → Exec (Shared S) (Unit {0})
  unfolding mark_in
  mark_written target c = mark_in target c.recent_writes c

-- What the handler reports, at the time `now`
unfoldable pub completed : JsonModule → WriteRequest → Bool → ReceivedEvent → String → Publication
completed J request existed_before event now =
    let payload = encode_completed J request.path (ℤ.pos (length request.content)) now in
    if existed_before
    then report write_completed_subject payload "FileWriteCompleted" event
    else report create_completed_subject payload "FileCreateCompleted" event

module _ {S : Type 0} (J : JsonModule) (F : FileSystem S) (B : Bus S) (watch_dir : PosixPath) where
  -- The report, and the acknowledgement after it
  unfoldable pub announce :
      WriteRequest → ReceivedEvent → Bool → String → Exec (Shared S) (Unit {0})
  announce request event existed_before occurred_at = do
    _ ← inner (B.publish (completed J request existed_before event occurred_at))
    inner (B.ack event)

  -- What follows the writing of the file
  unfoldable pub finish :
      WriteRequest → ReceivedEvent → PosixPath → Bool → Exec (Shared S) (Unit {0})
  finish request event target existed_before = do
    _ ← mark_written F target
    occurred_at ← inner (always F.now_iso)
    announce request event existed_before occurred_at

  unfoldable pub store :
      WriteRequest → ReceivedEvent → PosixPath → Bool → Exec (Shared S) (Unit {0})
  store request event target existed_before =
      except_return (inner (write_file F target request.content)) is_os_error (inner (B.nak event))
        λ _. finish request event target existed_before

  unfoldable pub write_within : WriteRequest → ReceivedEvent → Exec (Shared S) (Unit {0})
  write_within request event =
      except_return (inner (resolve_within F watch_dir request.path)) is_path_traversal
        (inner (B.ack event))
        λ target. do
          existed_before ← inner (F.exists target)
          store request event target existed_before

  -- `_handle`
  unfoldable pub handle : ReceivedEvent → Exec (Shared S) (Unit {0})
  handle event =
      except_return (lift (decode_write_requested J event.payload)) is_malformed
        (inner (B.ack event)) λ request. write_within request event

  -- `start` and `run_once`
  unfoldable pub start : Option String → Exec (Shared S) String
  start durable_name = inner (B.subscribe write_requested_subject durable_name)

  unfoldable pub run_handler : String → ℕ → ℕ → Exec (Shared S) ℕ
  run_handler durable_name batch timeout =
      run_once handle (inner (B.fetch durable_name batch timeout))
