-- ===== src/DbAdapter/Cdc/Log.antt =====
-- What the change-data capture has published (db_adapter_mysql/cdc_watcher.py).
use jet_core_service_bus.Prelude.{
  ◌≡◌, refl, none, some, List, [], ◌∷◌, ◌++◌, map, append-nil, append_assoc, sym, ◌∙◌, ap, String,
}
use jet_core_service_bus.Python.Exec.{Exec, pure, ◌>>=◌, always}
use jet_core_service_bus.Python.Exec.Keeps.{Keeps}
use jet_core_service_bus.Python.Exec.Hoare.{Triple}
use jet_core_service_bus.Python.Json.{JsonModule}
use jet_core_service_bus.Jetcore.Bus.{Bus}
use jet_core_service_bus.Jetcore.BusClient.Sealing.{Publication}
use jet_core_service_bus.DbAdapter.Payloads.{Row}
use jet_core_service_bus.DbAdapter.Cdc.{
  BinlogEvent, write_rows, update_rows, delete_rows, other_event, Binlog, row_changed,
  publish_row_changed, publish_rows, publish_updates, publish_event, poll_interval, found,
}

-- One publication for each row of an event, in the order of the rows.
unfoldable pub row_changes : JsonModule → BinlogEvent → List Publication
row_changes J (write_rows table rows) = map (λ row. row_changed J "insert" table row none) rows
row_changes J (update_rows table rows) =
    map (λ (r : Row × Row). row_changed J "update" table r.1 (some r.0)) rows
row_changes J (delete_rows table rows) = map (λ row. row_changed J "delete" table row none) rows
row_changes J other_event = []

unfoldable pub changes : JsonModule → List BinlogEvent → List Publication
changes J [] = []
changes J (event ∷ events) = row_changes J event ++ changes J events

pub changes-append :
    (J : JsonModule) (es : List BinlogEvent) (e : BinlogEvent)
    → changes J (es ++ e ∷ []) ≡ changes J es ++ row_changes J e
unfolding changes
changes-append J [] e = append-nil (row_changes J e)
changes-append J (x ∷ es) e =
    ap (λ l. row_changes J x ++ l) (changes-append J es e)
    ∙ sym (append_assoc (row_changes J x) (changes J es) (row_changes J e))

-- The events that the stream has given and the publications that were made, while the stream is open
-- and once it is closed. Every call is told what it leads to.
pub record CdcProtocol {S : Type 0} (B : Bus S) (L : Binlog S) : Type 1 where
  pub At : List BinlogEvent → List Publication → S → Type 0
  pub Closed : List BinlogEvent → List Publication → S → Type 0
  pub caught_up :
      (es : List BinlogEvent) (ps : List Publication)
      → Triple (At es ps) L.next_event (λ o. At (es ++ found o) ps) (λ _. At es ps)
  pub publish :
      (es : List BinlogEvent) (ps : List Publication) (p : Publication)
      → Triple (At es ps) (B.publish p) (λ _. At es (ps ++ p ∷ [])) (λ _. At es ps)
  pub is_set : (es : List BinlogEvent) (ps : List Publication) → Keeps (At es ps) (always L.is_set)
  pub wait :
      (es : List BinlogEvent) (ps : List Publication) → Keeps (At es ps) (L.wait poll_interval)
  pub close :
      (es : List BinlogEvent) (ps : List Publication)
      → Triple (At es ps) L.close (λ _. Closed es ps) (λ _. Closed es ps)

module _ {S : Type 0} (J : JsonModule) (B : Bus S) (L : Binlog S) where
  unfoldable pub publish_each : List Publication → Exec S (Unit {0})
  publish_each [] = pure tt
  publish_each (p ∷ ps) = do _ ← (do _ ← B.publish p; pure tt); publish_each ps

  publish_rows-each :
      (operation table : String) (rows : List Row)
      → publish_rows J B L operation table rows
        ≡ publish_each (map (λ row. row_changed J operation table row none) rows)
  unfolding publish_rows publish_each publish_row_changed
  publish_rows-each operation table [] = refl
  publish_rows-each operation table (row ∷ rows) =
      ap
        (λ (k : Exec S (Unit {0})). (publish_row_changed J B L operation table row none >>= λ _. k))
        (publish_rows-each operation table rows)

  publish_updates-each :
      (table : String) (rows : List (Row × Row))
      → publish_updates J B L table rows
        ≡ publish_each (map (λ (r : Row × Row). row_changed J "update" table r.1 (some r.0)) rows)
  unfolding publish_updates publish_each publish_row_changed
  publish_updates-each table [] = refl
  publish_updates-each table ((before, after) ∷ rows) =
      ap
        (λ (k : Exec S (Unit {0})).
          (publish_row_changed J B L "update" table after (some before) >>= λ _. k))
        (publish_updates-each table rows)

  pub publish_event-each :
      (event : BinlogEvent) → publish_event J B L event ≡ publish_each (row_changes J event)
  unfolding publish_event row_changes publish_each
  publish_event-each (write_rows table rows) = publish_rows-each "insert" table rows
  publish_event-each (update_rows table rows) = publish_updates-each table rows
  publish_event-each (delete_rows table rows) = publish_rows-each "delete" table rows
  publish_event-each other_event = refl
