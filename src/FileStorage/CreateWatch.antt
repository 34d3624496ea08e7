-- ===== src/FileStorage/CreateWatch.antt =====
-- The watch for files that others create (file_storage_adapter/create_watch.py).
pub mod Settling
pub mod Termination
use jet_core_service_bus.Prelude.{
  List, [], ◌∷◌, String, Bool, ℕ, zero, suc, ℤ, String, Bool, true, false, Option, none, some, List,
  [], ◌∷◌, ◌==◌, ltb, if◌then◌else◌,
}
use jet_core_service_bus.Python.Exception.{Exception, Result, ok, err}
use jet_core_service_bus.Python.Exec.{Exec, pure, raise, lift, ◌>>=◌, except_return, always}
use jet_core_service_bus.Python.Json.{Bytes, JsonModule}
use jet_core_service_bus.Python.PurePath.{PosixPath, relative_to, path_text}
use jet_core_service_bus.Python.PurePath.{relative_to, path_text}
use jet_core_service_bus.Jetcore.Bus.{Bus}
use jet_core_service_bus.Jetcore.BusClient.Sealing.{Publication}
use jet_core_service_bus.FileStorage.FileSystem.{FileSystem}
use jet_core_service_bus.FileStorage.Payloads.{encode_completed}
use jet_core_service_bus.FileStorage.RecentWrites.{RecentWrites, was_recent}

-- In milliseconds
abbrev pub settle_poll_interval : ℕ
settle_poll_interval = 200

abbrev pub settle_stable_reads : ℕ
settle_stable_reads = 3

abbrev pub is_file_not_found : Exception → Bool
is_file_not_found Exception.file_not_found_error = true
is_file_not_found _ = false

-- `last_size` and `consecutive_matches` after a reading; `last_size` starts at -1.
pub next : ℤ → ℕ → ℕ → ℤ × ℕ
next (ℤ.negsuc k) matches size = (ℤ.pos size, 0)
next (ℤ.pos n) matches size = if n == size then (ℤ.pos n, suc matches) else (ℤ.pos size, 0)

module _ {S : Type 0} (F : FileSystem S) (path : PosixPath) (stable_reads : ℕ) where
  -- The loop, with the number of turns that it may take: without any left it does not return.
  pub wait : ℕ → ℤ → ℕ → Exec S (Option ℤ)
  wait zero last_size matches =
      if ltb matches stable_reads then raise Exception.blocked else pure (some last_size)
  wait (suc fuel) last_size matches =
      if ltb matches stable_reads
      then (do
        _ ← F.sleep settle_poll_interval
        except_return (F.st_size path) is_file_not_found (pure none) λ size.
            let (last_size', matches') = next last_size matches size in
            wait fuel last_size' matches')
      else pure (some last_size)

  unfoldable pub wait_until_settled : ℕ → Exec S (Option ℤ)
  unfolding wait next
  wait_until_settled fuel = wait fuel (ℤ.negsuc 0) 0

pub data Change : Type 0 where
  added : Change
  modified : Change
  deleted : Change

-- The world, and the record of writes that the watch shares with the write handler
pub record Watched (S : Type 0) : Type 0 where
  pub recent_writes : RecentWrites
  pub state : S

module _ {S : Type 0} where
  unfoldable pub inner : {A : Type 0} → Exec S A → Exec (Watched S) A
  inner m c = let (r, s) = m c.state in (r, record c { state = s })

  -- `self._recent_writes.was_recent(path)`, at the time `now`
  unfoldable pub ask_recent : PosixPath → ℕ → Exec (Watched S) Bool
  ask_recent path now c =
      let (recent, r) = was_recent path now c.recent_writes in
      (ok recent, record c { recent_writes = r })

abbrev created_subject : String
created_subject = "events.files.FileCreateCompleted"

-- A file that others made has no command, so its report has no correlation.
abbrev creation_report : Bytes → Publication
creation_report payload = record {
  subject = created_subject;
  payload = payload;
  event_type = "FileCreateCompleted";
  event_schema_version = "1.0.0";
  correlation_id = none;
  msg_id = none;
}

module _ {S : Type 0} (J : JsonModule) (F : FileSystem S) (B : Bus S) (watch_dir : PosixPath)
    (fuel : ℕ) where
  report_settled : PosixPath → Option ℤ → Exec S (Unit {0})
  report_settled path none = pure tt
  report_settled path (some size) = do
    relative ← lift (relative_to path watch_dir)
    occurred_at ← always F.now_iso
    _ ← B.publish (creation_report (encode_completed J (path_text relative) size occurred_at))
    pure tt

  -- `_handle_new_file`
  unfoldable pub handle_new_file : PosixPath → Exec S (Unit {0})
  unfolding report_settled
  handle_new_file path = do
    size ← wait_until_settled F path settle_stable_reads fuel
    report_settled path size

  handle_unless_recent : PosixPath → Bool → Exec (Watched S) (Unit {0})
  unfolding inner
  handle_unless_recent path true = pure tt
  handle_unless_recent path false = inner (handle_new_file path)

  handle_file : PosixPath → Bool → Exec (Watched S) (Unit {0})
  unfolding inner ask_recent handle_unless_recent
  handle_file path false = pure tt
  handle_file path true = do
    now ← inner (always F.monotonic)
    recent ← ask_recent path now
    handle_unless_recent path recent

  handle_change : Change → PosixPath → Exec (Watched S) (Unit {0})
  unfolding inner handle_file
  handle_change Change.added path = do there ← inner (F.is_file path); handle_file path there
  handle_change _ path = pure tt

  -- `run_forever`, on the changes that `awatch` yields until it stops
  unfoldable pub run_forever : List (Change × PosixPath) → Exec (Watched S) (Unit {0})
  unfolding handle_change
  run_forever [] = pure tt
  run_forever ((change, path) ∷ changes) = do _ ← handle_change change path; run_forever changes
