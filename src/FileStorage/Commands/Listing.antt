-- ===== src/FileStorage/Commands/Listing.antt =====
-- The list command (file_storage_adapter/list_handler.py).
use Prim.Native.Char.{code}
use jet_core_service_bus.Prelude.{
  ℕ, String, Bool, true, false, ◌||◌, ◌&&◌, ◌==◌, ltb, Option, List, [], ◌∷◌, ◌++◌, if◌then◌else◌,
}
use jet_core_service_bus.Python.Exception.{is_os_error}
use jet_core_service_bus.Python.Exec.{Exec, pure, lift, ◌>>=◌, except_return, always}
use jet_core_service_bus.Python.Json.{JsonModule}
use jet_core_service_bus.Python.PurePath.{PosixPath}
use jet_core_service_bus.Jetcore.Bus.{Bus}
use jet_core_service_bus.Jetcore.BusClient.{ReceivedEvent}
use jet_core_service_bus.FileStorage.FileSystem.{FileSystem}
use jet_core_service_bus.FileStorage.Paths.{resolve_within}
use jet_core_service_bus.FileStorage.Payloads.{
  operation_failed_subject, FileEntry, decode_path_only_request, encode_list_completed,
  encode_operation_failed,
}
use jet_core_service_bus.Adapter.{is_malformed, is_path_traversal, report, run_once}

abbrev pub list_requested_subject : String
list_requested_subject = "events.files.FileListRequested"

abbrev pub list_completed_subject : String
list_completed_subject = "events.files.FileListCompleted"

-- `<=` on texts, by code points
pub text_le : String → String → Bool
text_le String.[] t = true
text_le (String.◌∷◌ c s) String.[] = false
text_le (String.◌∷◌ c s) (String.◌∷◌ d t) =
    ltb (code c) (code d) || (code c == code d && text_le s t)

insert_name : String → List String → List String
insert_name n [] = n ∷ []
insert_name n (m ∷ ms) = let rest = insert_name n ms in if text_le n m then n ∷ m ∷ ms else m ∷ rest

-- `sorted(…)` of the children of one directory: their paths differ in the name only.
unfoldable pub sorted_names : List String → List String
unfolding insert_name
sorted_names [] = []
sorted_names (n ∷ ns) = insert_name n (sorted_names ns)

module _ {S : Type 0} (F : FileSystem S) where
  size_of : PosixPath → Bool → Exec S ℕ
  size_of child true = pure 0
  size_of child false = F.st_size child

  entries_of : PosixPath → List String → Exec S (List FileEntry)
  unfolding size_of
  entries_of target [] = pure []
  entries_of target (n ∷ ns) = do
    let child = target ++ n ∷ []
    is_directory ← F.is_dir child
    is_still_directory ← F.is_dir child
    size_bytes ← size_of child is_still_directory
    rest ← entries_of target ns
    pure (record { name = n; is_directory = is_directory; size_bytes = size_bytes } ∷ rest)

  unfoldable pub list_entries : PosixPath → Exec S (List FileEntry)
  unfolding entries_of
  list_entries target = do names ← F.iterdir target; entries_of target (sorted_names names)

module _ {S : Type 0} (J : JsonModule) (F : FileSystem S) (B : Bus S) (watch_dir : PosixPath) where
  -- The report of a directory that is not there, or is none
  unfoldable pub refuse : String → String → ReceivedEvent → Exec S (Unit {0})
  refuse path reason event = do
    occurred_at ← always F.now_iso
    _ ← B.publish (
        report operation_failed_subject (encode_operation_failed J path "list" reason occurred_at)
          "FileOperationFailed" event)
    B.ack event

  unfoldable pub report_entries : String → ReceivedEvent → List FileEntry → Exec S (Unit {0})
  report_entries path event entries = do
    occurred_at ← always F.now_iso
    _ ← B.publish (
        report list_completed_subject (encode_list_completed J path entries occurred_at)
          "FileListCompleted" event)
    B.ack event

  unfoldable pub list_directory : String → ReceivedEvent → PosixPath → Bool → Exec S (Unit {0})
  list_directory path event target false = refuse path "not_a_directory" event
  list_directory path event target true =
      except_return (list_entries F target) is_os_error (B.nak event) (report_entries path event)

  unfoldable pub list_target : String → ReceivedEvent → PosixPath → Bool → Exec S (Unit {0})
  list_target path event target false = refuse path "not_found" event
  list_target path event target true = do
    is_directory ← F.is_dir target
    list_directory path event target is_directory

  unfoldable pub list_within : String → ReceivedEvent → Exec S (Unit {0})
  list_within path event =
      except_return (resolve_within F watch_dir path) is_path_traversal (B.ack event)
        λ target. do there ← F.exists target; list_target path event target there

  -- `_handle`: the empty path is the watched directory.
  unfoldable pub handle : ReceivedEvent → Exec S (Unit {0})
  handle event =
      except_return (lift (decode_path_only_request J true event.payload)) is_malformed
        (B.ack event) λ path. list_within path event

  unfoldable pub start : Option String → Exec S String
  start durable_name = B.subscribe list_requested_subject durable_name

  unfoldable pub run_handler : String → ℕ → ℕ → Exec S ℕ
  run_handler durable_name batch timeout = run_once handle (B.fetch durable_name batch timeout)
