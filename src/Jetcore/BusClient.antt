-- ===== src/Jetcore/BusClient.antt =====
-- The adapter-facing client (libs/jetcore/jetcore/bus_client.py): it publishes encrypted and signed
-- events, and hands back the received ones that it could decrypt and verify.
pub mod Sealing
pub mod Redelivery
pub mod Receive
pub mod Publish
pub mod Channel
pub mod Frame
pub mod Order
pub mod Idempotence
pub mod Connection
use jet_core_service_bus.Prelude.{
  ℕ, zero, suc, ◌-◌, min, String, ◌<>◌, Bool, true, false, Option, none, some, List, [], ◌∷◌, ◌++◌,
  length, get_elem?, if◌then◌else◌, str_eq,
}
use jet_core_service_bus.Python.Exception.{Exception, Result, ok, err}
use jet_core_service_bus.Python.Exec.{
  Exec, pure, raise, lift, ◌>>=◌, except, except_return, always, any_exception,
}
use jet_core_service_bus.Python.Json.{Bytes, Json, JsonModule}
use jet_core_service_bus.Python.Base64.{b64encode, b64decode}
use jet_core_service_bus.Python.Dict
use jet_core_service_bus.Python.Dict.{Dict}
use jet_core_service_bus.Python.Equality.{string_eq}
use jet_core_service_bus.Jetcore.Envelope.{
  Event, EventDetails, EventEnvelope, EncryptionMetadata, Pydantic, Fresh, to_wire, from_wire,
}
use jet_core_service_bus.Jetcore.Crypto.{
  EncryptionKeyPair, Primitives, encrypt_for_recipients, decrypt, sign, verify,
}
use jet_core_service_bus.Jetcore.Platform.{Platform, PubAck, Msg, ConsumerConfig}
use jet_core_service_bus.Jetcore.Registry.{
  Registration, register_identity, lookup_signing_key, heartbeat, watch,
}
use jet_core_service_bus.Jetcore.BusClient.Sealing.{
  Account, Publication, seal, make_event, unseal, check_signature,
}
use jet_core_service_bus.Jetcore.Registry.Cache.{RecipientCache, current}

abbrev pub max_deliver_attempts : ℕ
max_deliver_attempts = 5

abbrev pub redelivery_backoff_seconds : List ℕ
redelivery_backoff_seconds = 2 ∷ 5 ∷ 15 ∷ 30 ∷ 60 ∷ []

-- `REDELIVERY_BACKOFF_SECONDS[min(num_delivered - 1, len(…) - 1)]`. At 0 the index is -1, which is
-- the last place. A place outside the list would be an `IndexError`, here `none`.
unfoldable pub redelivery_delay : ℕ → Option ℕ
redelivery_delay zero = get_elem? redelivery_backoff_seconds (length redelivery_backoff_seconds - 1)
redelivery_delay (suc n) =
    get_elem? redelivery_backoff_seconds (min n (length redelivery_backoff_seconds - 1))

unfoldable pub consumer_config : String → ConsumerConfig
consumer_config subject = record {
  filter_subject = subject;
  ack_explicit = true;
  deliver_all = true;
  max_deliver = max_deliver_attempts;
  backoff = redelivery_backoff_seconds;
}

pub record ReceivedEvent : Type 0 where
  pub event : Event
  pub payload : Bytes
  pub msg : Msg

-- `details`
abbrev pub details : ReceivedEvent → EventDetails
details e = e.event.event.event_details

-- The libraries that the client stands on
pub record Outside : Type 1 where
  pub pydantic : Pydantic
  pub primitives : Primitives
  pub json : JsonModule
  pub platform : Platform

-- The three fields that change, beside the state of what is outside. A subscription is known by its
-- durable name.
pub record Client (O : Outside) : Type 0 where
  pub recipient_caches : Dict String RecipientCache
  pub subscriptions : Dict String O.platform.Subscription
  pub background_tasks : List Registration
  pub state : O.platform.State

abbrev pub is_timeout : Exception → Bool
is_timeout Exception.timeout_error = true
is_timeout _ = false

abbrev is_empty {ℓ} : {A : Type ℓ} → List A → Bool
is_empty [] = true
is_empty (x ∷ xs) = false

-- `durable_name or f"{service_id}-{subject}"`: an empty name counts as none.
abbrev or_default : Option String → String → String
or_default none d = d
or_default (some n) d = if str_eq n "" then d else n

module _ (O : Outside) where
  abbrev pub Run : Type 0 → Type 0
  Run A = Exec (Client O) A

  -- A call of something outside leaves the client's own fields alone.
  unfoldable pub outside : {A : Type 0} → Exec O.platform.State A → Run A
  outside m c = let (r, s) = m c.state in (r, record c { state = s })

  keep_cache : String → RecipientCache → Run RecipientCache
  keep_cache subject cache c =
      (ok cache, record c { recipient_caches = Dict.insert subject cache c.recipient_caches })

  watched : String → Option RecipientCache → Run RecipientCache
  unfolding keep_cache
  watched subject none = raise Exception.blocked
  watched subject (some cache) = keep_cache subject cache

  -- `_cache_for`
  unfoldable pub cache_for : String → Run RecipientCache
  unfolding outside watched
  cache_for subject c = elim (Dict.lookup subject c.recipient_caches) [
    | some cache ↦ (ok cache, c)
    | none ↦ (do w ← outside (watch O.json O.platform subject); watched subject w) c
  ]

  keep_task : Registration → Run (Unit {0})
  keep_task task c = (ok tt, record c { background_tasks = c.background_tasks ++ task ∷ [] })

  keep_subscription : String → O.platform.Subscription → Run String
  keep_subscription name sub c =
      (ok name, record c { subscriptions = Dict.insert name sub c.subscriptions })

  abbrev original_id : Option Bytes → Run String
  original_id none = raise Exception.runtime_error
  original_id (some bytes) = do
    fresh ← outside (always O.platform.fresh)
    event ← lift (from_wire O.pydantic fresh bytes)
    pure event.event.event_details.event_id

  -- What follows the acknowledgement: the id of a duplicate is that of the original message.
  unfoldable pub published_id : String → PubAck → Run String
  unfolding outside
  published_id event_id pub_ack =
      if pub_ack.duplicate
      then (do
        original ← outside (O.platform.js_get_msg pub_ack.stream pub_ack.seq)
        original_id original)
      else pure event_id

  module _ (account : Account) where
    unfoldable pub publish : Publication → Run String
    publish p = do
      cache ← cache_for p.subject
      (ciphertext, recipients) ← lift (seal O.primitives (current cache) p.payload)
      signature ← lift (sign O.primitives account.signing_seed p.payload)
      fresh ← outside (always O.platform.fresh)
      let event = make_event account p fresh ciphertext recipients signature
      pub_ack ← outside (O.platform.js_publish p.subject (to_wire O.pydantic event) p.msg_id none)
      published_id fresh.new_event_id pub_ack

    -- `subscribe`: the first registration is awaited, and its task is kept.
    unfoldable pub subscribe : String → Option String → Run String
    unfolding outside keep_task keep_subscription
    subscribe subject durable_name = do
      let name = or_default durable_name (account.service_id <> "-" <> subject)
      task ← outside (
          heartbeat O.json O.platform (record {
            subject = subject;
            service_id = account.service_id;
            adapter_type = account.adapter_type;
            encryption_public_key = account.encryption_keypair.public_key;
          }))
      _ ← keep_task task
      sub ← outside (O.platform.pull_subscribe subject name (consumer_config subject))
      keep_subscription name sub

    abbrev trusted : Option String → Run String
    trusted none = raise Exception.signature_verification_error
    trusted (some k) = pure k

    abbrev accept : Bool → ReceivedEvent → Run ReceivedEvent
    accept good e = if good then pure e else raise Exception.signature_verification_error

    -- `_process`. A `sourcePublicKey` that differs from the trusted key is only logged.
    unfoldable pub process : Msg → Run ReceivedEvent
    unfolding outside
    process msg = do
      fresh ← outside (always O.platform.fresh)
      (event, plaintext, signature) ← lift (unseal O.pydantic O.primitives account fresh msg.bytes)
      found ←
          outside (lookup_signing_key O.json O.platform event.event.event_details.source_service_id)
      trusted_key ← trusted found
      good ← lift (check_signature O.primitives trusted_key plaintext signature)
      accept good (record { event = event; payload = plaintext; msg = msg })

    -- The loop of `fetch`: a message that fails is logged and left unacked.
    unfoldable pub process_all : List Msg → Run (List ReceivedEvent)
    process_all [] = pure []
    process_all (msg ∷ msgs) =
        let rest = process_all msgs in
        except_return (process msg) any_exception rest (λ e. do es ← rest; pure (e ∷ es))

    -- `fetch` on the subscription of that name, if there is one.
    unfoldable pub fetch_from : Option O.platform.Subscription → ℕ → ℕ → Run (List ReceivedEvent)
    unfolding outside
    fetch_from none batch timeout = raise Exception.value_error
    fetch_from (some sub) batch timeout =
        except_return (outside (O.platform.pull_fetch sub batch timeout)) is_timeout (pure [])
          process_all

    unfoldable pub fetch : String → ℕ → ℕ → Run (List ReceivedEvent)
    fetch durable_name batch timeout c =
        fetch_from (Dict.lookup durable_name c.subscriptions) batch timeout c

  unfoldable pub ack : ReceivedEvent → Run (Unit {0})
  unfolding outside
  ack e = outside (O.platform.msg_ack e.msg)

  abbrev nak_after : Msg → Option ℕ → Run (Unit {0})
  nak_after msg none = raise Exception.index_error
  nak_after msg (some delay) = outside (O.platform.msg_nak msg delay)

  unfoldable pub nak : ReceivedEvent → Run (Unit {0})
  unfolding outside redelivery_delay
  nak e = nak_after e.msg (redelivery_delay e.msg.num_delivered)
