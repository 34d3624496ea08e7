-- ===== src/RestApi/Orders.antt =====
-- The endpoint that creates an order, and the loop that feeds it replies (rest_api_service/app.py and
-- pending_replies.py). A wait is in milliseconds. While a request waits, the rest of the program runs.
pub mod Cleanup
pub mod OwnReply
use jet_core_service_bus.Prelude.{
  ℕ, zero, suc, min, Bool, if◌then◌else◌, String, Option, none, some, List, [], ◌∷◌, get_elem?,
}
use jet_core_service_bus.Python.Exec.{Exec, pure, ◌>>=◌}
use jet_core_service_bus.Python.Exception.{Exception, ok, err}
use jet_core_service_bus.Python.Json.{Bytes, Json, Fields, JsonModule}
use jet_core_service_bus.Jetcore.Bus.{Bus}
use jet_core_service_bus.Jetcore.BusClient.{ReceivedEvent}
use jet_core_service_bus.Jetcore.BusClient.Sealing.{Publication}
use jet_core_service_bus.RestApi.PendingReplies.{
  Future, Replies, register, unregister, resolve, expire,
}

abbrev pub order_created_subject : String
order_created_subject = "events.orders.OrderCreated"

pub record Response : Type 0 where
  pub status_code : ℕ
  pub content : Bytes

-- The table of pending replies, and the world
pub record Api (S : Type 0) : Type 0 where
  pub replies : Replies
  pub state : S

module _ {S : Type 0} where
  inner : {A : Type 0} → Exec S A → Exec (Api S) A
  inner m a = let (r, s) = m a.state in (r, record a { state = s })

  -- `pending_replies.register(event_id)`
  unfoldable pub register_reply : String → Exec (Api S) ℕ
  register_reply event_id a =
      let (i, r) = register event_id a.replies in (ok i, record a { replies = r })

  abbrev pub on_replies : (Replies → Replies) → Api S → Api S
  on_replies f a = record a { replies = f a.replies }

  resolve_reply : ReceivedEvent → Exec (Api S) (Unit {0})
  resolve_reply event a = (ok tt, on_replies (λ r. (resolve event r).1) a)

abbrev pub order_created : Bytes → Option String → Publication
order_created body idempotency_key = record {
  subject = order_created_subject;
  payload = body;
  event_type = "OrderCreated";
  event_schema_version = "1.0.0";
  correlation_id = none;
  msg_id = idempotency_key;
}

module _ (J : JsonModule) where
  unfoldable pub accepted : String → Response
  accepted event_id = record {
    status_code = 202;
    content = J.dumps (Json.obj (Fields.field "eventId" (Json.str event_id) Fields.end));
  }

  unfoldable pub timed_out : String → Response
  timed_out event_id = record {
    status_code = 504;
    content = J.dumps (
        Json.obj (
          Fields.field "eventId" (Json.str event_id)
            (Fields.field "error" (Json.str "timeout waiting for reply") Fields.end)));
  }

  -- The answer to what the future holds when the wait is over
  unfoldable pub answer : String → Option Future → Response
  answer event_id (some (Future.resolved event)) = record {
    status_code = 200;
    content = event.payload;
  }
  answer event_id _ = timed_out event_id

module _ {S : Type 0} (J : JsonModule) (B : Bus S) (default_reply_timeout : ℕ)
    (meanwhile : ℕ → Api S → Bool × Api S) where
  -- `wait_for` the future at that place, until it is resolved, the time is up or the request itself
  -- is cancelled, which `meanwhile` says; and the `finally` after it
  unfoldable pub await_reply : String → ℕ → ℕ → Exec (Api S) Response
  await_reply event_id wait i a =
      let (is_cancelled, later) = meanwhile wait a in
      (
        if is_cancelled
            then err Exception.cancelled_error
            else ok (answer J event_id (get_elem? later.replies.futures i)),
        on_replies (λ r. unregister event_id (expire i r)) later,
      )

  unfoldable pub respond : String → ℕ → Exec (Api S) Response
  respond event_id zero = pure (accepted J event_id)
  respond event_id (suc wait) = do
    i ← register_reply event_id
    await_reply event_id (min (suc wait) default_reply_timeout) i

  -- `create_order`
  unfoldable pub create_order : Bytes → ℕ → Option String → Exec (Api S) Response
  unfolding inner
  create_order body wait idempotency_key = do
    event_id ← inner (B.publish (order_created body idempotency_key))
    respond event_id wait

  deliver_all : List ReceivedEvent → Exec (Api S) (Unit {0})
  unfolding inner resolve_reply
  deliver_all [] = pure tt
  deliver_all (event ∷ events) = do
    _ ← resolve_reply event
    _ ← inner (B.ack event)
    deliver_all events

  -- One round of `run_reply_watcher`: a reply that nobody waits for is acknowledged all the same.
  unfoldable pub watch_replies : String → ℕ → ℕ → Exec (Api S) (Unit {0})
  unfolding inner deliver_all
  watch_replies durable_name batch timeout = do
    received ← inner (B.fetch durable_name batch timeout)
    deliver_all received
