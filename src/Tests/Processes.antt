-- ===== src/Tests/Processes.antt =====
-- The properties of the processes and of the change-data capture at concrete inputs.
use jet_core_service_bus.Prelude.{
  refl, sym, ap, ◌∙◌, append-nil, arith, ◌<◌, zero, suc, ◌++◌, length, List, ◌∷◌, none, true, All,
  ◌≡◌, ℕ, ◌≢◌, Bool, [], some, false, Option, map,
}
use jet_core_service_bus.Python.Exec.Hoare.{Ends}
use jet_core_service_bus.Python.Exception.{is_http_error, ok, Result}
use jet_core_service_bus.Python.Json.{Json}
use jet_core_service_bus.Jetcore.Bus.{Bus}
use jet_core_service_bus.Jetcore.BusClient.Sealing.{Publication}
use jet_core_service_bus.Python.Equality.{string_eq}
use jet_core_service_bus.Python.Exec.{Exec}
use jet_core_service_bus.Entrypoint.{
  Task, Process, Event, signal, start_next, turn, step, run_events, make_start, turn_at, loop,
  wait_for_shutdown, launch, gathered, all_returned,
}
use jet_core_service_bus.Entrypoint.Shutdown.{Heeds, wait_for_shutdown-Heeds, Makes}
use jet_core_service_bus.Entrypoint.Ending.{
  has_signal, has_turn, gathered-has_signal, gathered-after_signal,
}
use jet_core_service_bus.WebhookSender.Relay.{start, run_handler, handle}
use jet_core_service_bus.Adapter.{run_once}
use jet_core_service_bus.WebhookSender.Entrypoint.{start_relay}
use jet_core_service_bus.WebhookSender.Entrypoint.Starting.{start_relays-Make}
use jet_core_service_bus.DbAdapter.Payloads.{Row, plain, datetime}
use jet_core_service_bus.DbAdapter.Cdc.{
  BinlogEvent, write_rows, update_rows, delete_rows, Binlog, run_stream, found,
}
use jet_core_service_bus.DbAdapter.Cdc.Log.{CdcProtocol}
use jet_core_service_bus.DbAdapter.Cdc.Published.{
  AllPublished, SomePublished, run_stream-AllPublished,
}
use jet_core_service_bus.Tests.Libraries.{test_json}
use jet_core_service_bus.Tests.Adapters.{Round, ready, round_http, round_bus}

-- A webhook sender with one subject
abbrev sender_starts : List (Exec Round (Task Round))
sender_starts = map (start_relay round_http round_bus "http://hook" none "s") ("orders" ∷ [])

sender_starts-Make : All (Makes Heeds) sender_starts
sender_starts-Make = start_relays-Make round_http round_bus "http://hook" none "s" ("orders" ∷ [])

abbrev before_turns : List Event
before_turns = turn 0 ∷ start_next ∷ turn 1 ∷ signal ∷ []

abbrev after_turns : List Event
after_turns = turn 1 ∷ turn 0 ∷ []

ended :
    gathered (
      run_events
        (before_turns ++ after_turns)
        (launch sender_starts (wait_for_shutdown ∷ []) ready))
    ≡ some (ok tt)
unfolding run_events step make_start turn_at loop wait_for_shutdown launch gathered all_returned
    start_relay start run_handler run_once handle is_http_error
ended = refl

gathered-has_signal_example : has_signal (before_turns ++ after_turns) ≡ true
gathered-has_signal_example =
    gathered-has_signal sender_starts wait_for_shutdown [] ready sender_starts-Make
      (wait_for_shutdown-Heeds, tt) (before_turns ++ after_turns) ended

abbrev at_signal : Process Round
at_signal = run_events before_turns (launch sender_starts (wait_for_shutdown ∷ []) ready)

all_started : at_signal.starts ≡ []
unfolding run_events step make_start turn_at loop wait_for_shutdown launch start_relay start
all_started = refl

two_tasks : length at_signal.tasks ≡ 2
unfolding run_events step make_start turn_at loop wait_for_shutdown launch start_relay start
two_tasks = refl

all_turn : (i : ℕ) → i < length at_signal.tasks → has_turn i after_turns ≡ true
all_turn zero h = refl
all_turn (suc zero) h = refl
all_turn (suc (suc i)) h = absurd (omega (arith, two_tasks, h))

gathered-after_signal_example :
    (gathered (run_events after_turns at_signal) ≢ none)
    × ((run_events after_turns at_signal).world ≡ at_signal.world)
gathered-after_signal_example =
    gathered-after_signal sender_starts wait_for_shutdown [] ready sender_starts-Make
      (wait_for_shutdown-Heeds, tt) before_turns after_turns refl all_started all_turn

-- A binlog with events to come; the shutdown event is set once there are none.
record Replica : Type 0 where
  pub coming : List BinlogEvent
  pub given : List BinlogEvent
  pub published : List Publication
  pub closed : Bool

abbrev next_of : List BinlogEvent → Replica → Result (Option BinlogEvent) × Replica
next_of [] w = (ok none, w)
next_of (e ∷ es) w = (ok (some e), record w { coming = es; given = w.given ++ e ∷ [] })

abbrev is_done : List BinlogEvent → Bool
is_done [] = true
is_done (e ∷ es) = false

abbrev replica_binlog : Binlog Replica
replica_binlog = record {
  next_event = λ w. next_of w.coming w;
  close = λ w. (ok tt, record w { closed = true });
  is_set = λ w. (is_done w.coming, w);
  set = λ w. (tt, w);
  wait = λ ms w. (ok tt, w);
}

abbrev replica_bus : Bus Replica
replica_bus = record {
  publish = λ p w. (ok "id", record w { published = w.published ++ p ∷ [] });
  subscribe = λ subject name w. (ok "d", w);
  fetch = λ name batch timeout w. (ok [], w);
  ack = λ e w. (ok tt, w);
  nak = λ e w. (ok tt, w);
}

record Holds (es : List BinlogEvent) (ps : List Publication) (w : Replica) : Type 0 where
  pub given : w.given ≡ es
  pub published : w.published ≡ ps

next_of-Holds :
    (cs es : List BinlogEvent) (ps : List Publication) (w : Replica)
    → Holds es ps w
    → Ends (λ o. Holds (es ++ found o) ps) (λ _. Holds es ps) (next_of cs w)
next_of-Holds [] es ps w h = record {
  given = h.given ∙ sym (append-nil es);
  published = h.published;
}
next_of-Holds (c ∷ cs) es ps w h = record {
  given = ap (λ l. l ++ c ∷ []) h.given;
  published = h.published;
}

replica_protocol : CdcProtocol replica_bus replica_binlog
replica_protocol = record {
  At = Holds;
  Closed = Holds;
  caught_up = λ es ps w h. next_of-Holds w.coming es ps w h;
  publish =
      λ es ps p w h. record { given = h.given; published = ap (λ l. l ++ p ∷ []) h.published };
  is_set = λ es ps w h. h;
  wait = λ es ps w h. h;
  close = λ es ps w h. record { given = h.given; published = h.published };
}

abbrev row : Row
row = ("id", plain (Json.str "o1")) ∷ ("at", datetime "now") ∷ []

abbrev replica : Replica
replica = record {
  coming =
      write_rows "orders" (row ∷ [])
      ∷ update_rows "orders" ((row, []) ∷ [])
      ∷ delete_rows "orders" (row ∷ row ∷ [])
      ∷ [];
  given = [];
  published = [];
  closed = false;
}

run_stream-AllPublished_example :
    Ends
      (λ _. AllPublished test_json replica_bus replica_binlog replica_protocol)
      (λ _. SomePublished test_json replica_bus replica_binlog replica_protocol)
      (run_stream test_json replica_bus replica_binlog 9 3 replica)
unfolding replica_protocol
run_stream-AllPublished_example =
    run_stream-AllPublished test_json replica_bus replica_binlog replica_protocol 9 3 replica
      (record { given = refl; published = refl })
