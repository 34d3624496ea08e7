-- ===== src/Tests/Liveness.antt =====
-- The properties of the endings and of the answers at concrete inputs.
use jet_core_service_bus.Prelude.{
  refl, arith, none, List, ◌≡◌, ◌∷◌, some, ℕ, [], ◌<◌, ◌==◌, ◌-◌, true, ◌++◌, false, get_elem?,
  Bool,
}
use jet_core_service_bus.FileStorage.FileSystem.{FileSystem}
use jet_core_service_bus.FileStorage.Main.{FileStorageSettings, run_and_close}
use jet_core_service_bus.FileStorage.Main.Closing.{running, begin, run_and_close-close}
use jet_core_service_bus.Jetcore.Config.{default_settings}
use jet_core_service_bus.Jetcore.BusClient.Connection.{close}
use jet_core_service_bus.Jetcore.Registry
use jet_core_service_bus.Jetcore.Registry.{heartbeat}
use jet_core_service_bus.Python.Exec.{finally, lift}
use jet_core_service_bus.Python.PurePath.{PosixPath}
use jet_core_service_bus.Python.Exec.Hoare.{Ends}
use jet_core_service_bus.Python.Exception.{ok, Result}
use jet_core_service_bus.Python.Equality.{string_eq}
use jet_core_service_bus.Python.Dict.{lookup, insert}
use jet_core_service_bus.Jetcore.Bus.{Bus}
use jet_core_service_bus.Jetcore.BusClient.{ReceivedEvent, Client, subscribe}
use jet_core_service_bus.Jetcore.BusClient.Sealing.{make_event}
use jet_core_service_bus.Entrypoint.{Event, signal, turn, run_events, Process}
use jet_core_service_bus.Entrypoint.Ending.{has_turn}
use jet_core_service_bus.FileStorage.Commands.Write.{Shared}
use jet_core_service_bus.FileStorage.Commands.Write
use jet_core_service_bus.FileStorage.Commands.Read
use jet_core_service_bus.FileStorage.Commands.Delete
use jet_core_service_bus.FileStorage.Commands.Listing
use jet_core_service_bus.FileStorage.CreateWatch.{Change}
use jet_core_service_bus.FileStorage.Entrypoint.{start_handlers}
use jet_core_service_bus.RestApi.PendingReplies.{resolve, no_replies, register}
use jet_core_service_bus.RestApi.PendingReplies.Delivery.{Action, act, run, ids}
use jet_core_service_bus.RestApi.Orders.{
  Api, Response, create_order, on_replies, respond, register_reply, await_reply, answer,
}
use jet_core_service_bus.RestApi.PendingReplies.Lost.{IsUnanswered, run-IsUnanswered}
use jet_core_service_bus.RestApi.Orders.OwnReply.{act_all, Answers, create_order-Answers}
use jet_core_service_bus.DbAdapter.Cdc.{write_rows, Binlog, run_stream}
use jet_core_service_bus.DbAdapter.Cdc.Termination.{StopProtocol, NotBlocked, run_stream-NotBlocked}
use jet_core_service_bus.Tests.Bus.{received, fresh_values}
use jet_core_service_bus.Tests.Files.{Stage, test_bus, root}
use jet_core_service_bus.Tests.Libraries.{test_json}
use jet_core_service_bus.Tests.World.{sender, publication, receiver, test_outside, test_client}

-- A binlog without an end; the world counts the checks that are to find the event clear.
abbrev endless : Binlog ℕ
endless = record {
  next_event = λ w. (ok (some (write_rows "orders" ([] ∷ []))), w);
  close = λ w. (ok tt, w);
  is_set = λ w. (w == 0, w - 1);
  set = λ w. (tt, 0);
  wait = λ ms w. (ok tt, w);
}

abbrev counting_bus : Bus ℕ
counting_bus = record {
  publish = λ p w. (ok "id", w);
  subscribe = λ subject name w. (ok "d", w);
  fetch = λ name batch timeout w. (ok [], w);
  ack = λ e w. (ok tt, w);
  nak = λ e w. (ok tt, w);
}

endless_protocol : StopProtocol counting_bus endless
endless_protocol = record {
  Due = λ n w. w ≡ n;
  found_set = λ w h. (ground (arith, h), ground (arith, h));
  nearer = λ n w h. omega (arith, h);
  next_event = λ n w h. h;
  publish = λ n p w h. h;
  wait = λ n w h. h;
  close = λ w. tt;
}

run_stream-NotBlocked_example :
    Ends (λ _ _. Unit {0}) NotBlocked (run_stream test_json counting_bus endless 3 4 3)
unfolding endless_protocol
run_stream-NotBlocked_example =
    run_stream-NotBlocked test_json counting_bus endless endless_protocol 3 4 3 (omega arith)
      (omega arith) 3 refl

abbrev reply : ReceivedEvent
reply = record received {
  event =
      make_event sender (record publication { correlation_id = some "id" }) fresh_values (104 ∷ [])
        [] (1 ∷ []);
}

-- While the request waits, the reply to its order comes.
abbrev reply_comes : ℕ → Api Stage → Bool × Api Stage
reply_comes ms a = (false, on_replies (λ r. (resolve reply r).1) a)

reply_comes-acts :
    (ms : ℕ) (b : Api Stage)
    → (reply_comes ms b).1.replies ≡ act_all (Action.resolves reply ∷ []) b.replies
unfolding act_all act
reply_comes-acts ms b = refl

abbrev idle : Api Stage
idle = record { replies = no_replies; state = Stage.pending }

abbrev answered : Api Stage
answered = (create_order test_json test_bus 3000 reply_comes (104 ∷ []) 5000 none idle).1

abbrev response : Response
response = record { status_code = 200; content = reply.payload }

replied :
    create_order test_json test_bus 3000 reply_comes (104 ∷ []) 5000 none idle
    ≡ (ok response, answered)
unfolding create_order respond register_reply await_reply answer make_event resolve register lookup
    insert
replied = refl

none_before : idle.replies ≡ run []
unfolding run
none_before = refl

create_order-Answers_example : Answers "id" response
create_order-Answers_example =
    create_order-Answers test_json test_bus 3000 reply_comes [] (Action.resolves reply ∷ [])
      reply_comes-acts (104 ∷ []) 5000 none idle answered "id" Stage.published response none_before
      refl replied refl

abbrev still_files : FileSystem (Client test_outside)
still_files = record {
  resolve = λ p s. (ok p, s);
  exists = λ p s. (ok false, s);
  is_file = λ p s. (ok true, s);
  is_dir = λ p s. (ok false, s);
  st_size = λ p s. (ok 7, s);
  mkdir = λ p s. (ok tt, s);
  write_bytes = λ p content s. (ok tt, s);
  read_bytes = λ p s. (ok [], s);
  unlink = λ p s. (ok tt, s);
  iterdir = λ p s. (ok [], s);
  sleep = λ ms s. (ok tt, s);
  now_iso = λ s. ("now", s);
  monotonic = λ s. (0, s);
}

abbrev no_changes : Client test_outside → Result (List (Change × PosixPath)) × Client test_outside
no_changes c = (ok [], c)

abbrev storage_settings : FileStorageSettings
storage_settings = record { base = default_settings "receiver" "/creds"; watch_dir = root }

abbrev storage : Process (Shared (Client test_outside))
storage =
    run_events (turn 0 ∷ turn 3 ∷ signal ∷ [])
      (running test_outside still_files 9 no_changes storage_settings receiver test_client)

begun :
    begin test_outside still_files 9 no_changes storage_settings receiver test_client
    ≡ (ok tt, (begin test_outside still_files 9 no_changes storage_settings receiver test_client).1)
unfolding start_handlers Write.start Read.start Listing.start Delete.start Write.inner subscribe
    heartbeat Registry.register
begun = refl

abbrev turns_after : List Event
turns_after = turn 4 ∷ turn 0 ∷ turn 2 ∷ turn 1 ∷ turn 3 ∷ []

all_turn : (i : ℕ) → i < 5 → has_turn i turns_after ≡ true
all_turn i h = ground (arith, h)

run_and_close-close_example :
    (r : Result (Unit {0})) × (run_and_close test_outside still_files 9 no_changes storage_settings
        receiver
        ((turn 0 ∷ turn 3 ∷ signal ∷ []) ++ turns_after)
        test_client
      ≡ finally (lift r) (close test_outside) storage.world.state)
run_and_close-close_example =
    run_and_close-close test_outside still_files 9 no_changes storage_settings receiver test_client
      (begin test_outside still_files 9 no_changes storage_settings receiver test_client).1
      (turn 0 ∷ turn 3 ∷ signal ∷ []) turns_after begun refl all_turn

-- Two requests wait under one id; the first gives up and removes it, then the reply comes.
abbrev two_requests : List Action
two_requests = Action.registers "id" ∷ Action.registers "id" ∷ []

second_waits : IsUnanswered 1 (run two_requests)
unfolding run act register
second_waits event h = absurd (ground (arith, h))

second_owns : get_elem? (ids two_requests) 1 ≡ some "id"
unfolding ids
second_owns = refl

run-IsUnanswered_example :
    IsUnanswered 1 (run ((Action.resolves reply ∷ []) ++ Action.unregisters "id" ∷ two_requests))
run-IsUnanswered_example =
    run-IsUnanswered two_requests (Action.resolves reply ∷ []) 1 "id" second_owns second_waits
