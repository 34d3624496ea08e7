-- ===== src/DbAdapter/Cdc.antt =====
-- The change-data capture (db_adapter_mysql/cdc_watcher.py): every row event of the binlog is
-- published, until the shutdown event is set.
pub mod Log
pub mod Published
pub mod Termination
use jet_core_service_bus.Prelude.{
  ℕ, zero, suc, String, Bool, true, false, Option, none, some, List, [], ◌∷◌, ◌++◌, map,
  if◌then◌else◌,
}
use jet_core_service_bus.Python.Exception.{Exception}
use jet_core_service_bus.Python.Exec.{Exec, pure, raise, ◌>>=◌, always, finally}
use jet_core_service_bus.Python.Json.{JsonModule}
use jet_core_service_bus.Jetcore.Bus.{Bus}
use jet_core_service_bus.Jetcore.BusClient.Sealing.{Publication}
use jet_core_service_bus.DbAdapter.Payloads.{Row, encode_row_changed}

abbrev pub row_changed_subject : String
row_changed_subject = "events.db.orders.RowChanged"

-- `_POLL_INTERVAL_SECONDS`, in milliseconds
abbrev pub poll_interval : ℕ
poll_interval = 500

-- A row event, with the table; an update has the values before and after. The stream is asked for no
-- other event, and one of another class is passed over.
pub data BinlogEvent : Type 0 where
  write_rows : String → List Row → BinlogEvent
  update_rows : String → List (Row × Row) → BinlogEvent
  delete_rows : String → List Row → BinlogEvent
  other_event : BinlogEvent

abbrev pub found : Option BinlogEvent → List BinlogEvent
found none = []
found (some e) = e ∷ []

-- The binlog reader, whose iteration gives `none` when it has caught up, and the `threading.Event`
pub record Binlog (S : Type 0) : Type 0 where
  pub next_event : Exec S (Option BinlogEvent)
  pub close : Exec S (Unit {0})
  pub is_set : S → Bool × S
  pub set : S → (Unit {0}) × S
  -- `shutdown.wait(…)`, in milliseconds
  pub wait : ℕ → Exec S (Unit {0})

module _ (J : JsonModule) where
  -- What `_publish_row_changed` publishes
  unfoldable pub row_changed : String → String → Row → Option Row → Publication
  row_changed operation table row previous_row = record {
    subject = row_changed_subject;
    payload = encode_row_changed J operation table row previous_row;
    event_type = "RowChanged";
    event_schema_version = "1.0.0";
    correlation_id = none;
    msg_id = none;
  }

module _ {S : Type 0} (J : JsonModule) (B : Bus S) (L : Binlog S) where
  -- `_publish_row_changed`: the result of the publication is awaited.
  unfoldable pub publish_row_changed : String → String → Row → Option Row → Exec S (Unit {0})
  publish_row_changed operation table row previous_row = do
    _ ← B.publish (row_changed J operation table row previous_row)
    pure tt

  -- The loops over the rows of an event
  unfoldable pub publish_rows : String → String → List Row → Exec S (Unit {0})
  publish_rows operation table [] = pure tt
  publish_rows operation table (row ∷ rows) = do
    _ ← publish_row_changed operation table row none
    publish_rows operation table rows

  unfoldable pub publish_updates : String → List (Row × Row) → Exec S (Unit {0})
  publish_updates table [] = pure tt
  publish_updates table ((before, after) ∷ rows) = do
    _ ← publish_row_changed "update" table after (some before)
    publish_updates table rows

  unfoldable pub publish_event : BinlogEvent → Exec S (Unit {0})
  publish_event (write_rows table rows) = publish_rows "insert" table rows
  publish_event (update_rows table rows) = publish_updates table rows
  publish_event (delete_rows table rows) = publish_rows "delete" table rows
  publish_event other_event = pure tt

  abbrev handle_found : Exec S (Unit {0}) → Option BinlogEvent → Exec S (Unit {0})
  handle_found rest none = pure tt
  handle_found rest (some event) = do
    _ ← publish_event event
    stop ← always L.is_set
    if stop then pure tt else rest

  -- `for event in stream`: it ends when the stream has caught up, or when the event is set. The
  -- argument bounds the events of one pass.
  unfoldable pub run_pass : ℕ → Exec S (Unit {0})
  run_pass zero = raise Exception.blocked
  run_pass (suc n) = let rest = run_pass n in (do found ← L.next_event; handle_found rest found)

  -- The body of `while not shutdown.is_set()`
  unfoldable pub scan : ℕ → Exec S Bool
  scan events = do
    _ ← run_pass events
    stop ← always L.is_set
    _ ← if stop then pure tt else L.wait poll_interval
    pure true

  -- The test and the body; the result tells whether the test let it in.
  unfoldable pub round : ℕ → Exec S Bool
  round events = do stop ← always L.is_set; if stop then pure false else scan events

  -- The second argument bounds the rounds.
  unfoldable pub run_rounds : ℕ → ℕ → Exec S (Unit {0})
  run_rounds events zero = raise Exception.blocked
  run_rounds events (suc n) =
      let rest = run_rounds events n in (do more ← round events; if more then rest else pure tt)

  -- `_run_stream`
  unfoldable pub run_stream : ℕ → ℕ → Exec S (Unit {0})
  run_stream events rounds = finally (run_rounds events rounds) L.close

  -- `request_shutdown`
  unfoldable pub request_shutdown : Exec S (Unit {0})
  request_shutdown = always L.set
