-- ===== src/Jetcore/Platform.antt =====
-- What jetcore calls outside: JetStream and its key-value buckets through nats-py, the clock, and
-- fresh identifiers. The state is unknown; a call returns its result or an exception.
use jet_core_service_bus.Prelude.{ℕ, String, Bool, Option, List}
use jet_core_service_bus.Python.Exec.{Exec}
use jet_core_service_bus.Python.Json.{Bytes}
use jet_core_service_bus.Jetcore.Envelope.{Fresh}

-- `PubAck`: the stream, the sequence number there, and whether the message was a duplicate.
pub record PubAck : Type 0 where
  pub stream : String
  pub seq : ℕ
  pub duplicate : Bool

-- The part of a nats-py message that is read here; `num_delivered` comes from its metadata, and
-- `reply` is what an acknowledgement is addressed to.
pub record Msg : Type 0 where
  pub subject : String
  pub bytes : Bytes
  pub reply : String
  pub num_delivered : ℕ

-- `ConsumerConfig`; the delays are in seconds.
pub record ConsumerConfig : Type 0 where
  pub filter_subject : String
  pub ack_explicit : Bool
  pub deliver_all : Bool
  pub max_deliver : ℕ
  pub backoff : List ℕ

-- One item of a watch: `None`, which says that the watch has caught up, or an entry.
pub data Operation : Type 0 where
  kv_put kv_del kv_purge : Operation

pub data Update : Type 0 where
  caught_up : Update
  entry : String → Operation → Option Bytes → Update

pub record Platform : Type 1 where
  pub State : Type 0
  -- `PullSubscription`
  pub Subscription : Type 0
  -- `nats.connect`, given the URL and the path of the credentials; `nc.close`; and `js.key_value` for
  -- a bucket
  pub connect : String → String → Exec State (Unit {0})
  pub close : Exec State (Unit {0})
  pub key_value : String → Exec State (Unit {0})
  -- `Path.read_bytes`
  pub read_bytes : String → Exec State Bytes
  -- `str(x25519.Identity.generate())`
  pub generate_identity : State → String × State
  pub fresh : State → Fresh × State
  pub now_isoformat : State → String × State
  -- `KeyValue.put`, `.delete`, `.get` (the entry's value) and `.keys(filters=[prefix])`
  pub kv_put : String → String → Bytes → Exec State (Unit {0})
  pub kv_delete : String → String → Exec State (Unit {0})
  pub kv_get : String → String → Exec State (Option Bytes)
  pub kv_keys : String → String → Exec State (List String)
  -- `KeyValue.watch`, with the updates that arrive until the watch has first caught up
  pub kv_watch : String → String → Exec State (List Update)
  -- `asyncio.sleep`, in milliseconds
  pub sleep : ℕ → Exec State (Unit {0})
  -- `js.publish`: subject, data, the `Nats-Msg-Id` header, and the `msg_ttl` in seconds
  pub js_publish : String → Bytes → Option String → Option ℕ → Exec State PubAck
  pub js_get_msg : String → ℕ → Exec State (Option Bytes)
  pub pull_subscribe : String → String → ConsumerConfig → Exec State Subscription
  -- `PullSubscription.fetch`: batch, timeout in milliseconds
  pub pull_fetch : Subscription → ℕ → ℕ → Exec State (List Msg)
  pub msg_ack : Msg → Exec State (Unit {0})
  -- `msg.nak(delay=…)`, in seconds
  pub msg_nak : Msg → ℕ → Exec State (Unit {0})
