-- ===== src/RestApi/Orders/Cleanup.antt =====
-- What is left of a request that waited (rest_api_service/app.py, `create_order`).
use jet_core_service_bus.Prelude.{ℕ, zero, suc, min, String, ◌≡◌, ◌<◌, Option, none, arith, Bool}
use jet_core_service_bus.Python.Dict
use jet_core_service_bus.Python.Dict.{lookup-erase}
use jet_core_service_bus.Python.Equality.{string_eq, equals_refl}
use jet_core_service_bus.Python.Exception.{ok}
use jet_core_service_bus.Python.Json.{Bytes, JsonModule}
use jet_core_service_bus.Jetcore.Bus.{Bus}
use jet_core_service_bus.RestApi.PendingReplies.{register, Replies, unregister, expire}
use jet_core_service_bus.RestApi.Orders.{
  register_reply, Api, create_order, respond, await_reply, order_created,
}

lookup-unregister : (id : String) (r : Replies) → Dict.lookup id (unregister id r).pending ≡ none
unfolding unregister
lookup-unregister id r = ground (arith, lookup-erase id id r.pending, equals_refl id)

module _ {S : Type 0} (J : JsonModule) (B : Bus S) (default_reply_timeout : ℕ)
    (meanwhile : ℕ → Api S → Bool × Api S) (body : Bytes) (wait : ℕ)
    (idempotency_key : Option String) (positive : 0 < wait) (a : Api S) where
  await_reply-unregistered :
      (id : String) (ms i : ℕ) (b : Api S)
      → Dict.lookup id (await_reply J B default_reply_timeout meanwhile id ms i b).1.replies.pending
        ≡ none
  unfolding await_reply
  await_reply-unregistered id ms i b = lookup-unregister id (expire i (meanwhile ms b).1.replies)

  respond-unregistered :
      (id : String) (n : ℕ) (b : Api S)
      → 0 < n
      → Dict.lookup id (respond J B default_reply_timeout meanwhile id n b).1.replies.pending ≡ none
  unfolding respond register_reply
  respond-unregistered id zero b h = absurd (omega arith)
  respond-unregistered id (suc n) b h =
      await_reply-unregistered id (min (suc n) default_reply_timeout) (register id b.replies).0
        (record b { replies = (register id b.replies).1 })

  -- When a request that waits has published its order under an id, then after `create_order` no
  -- reply is pending for that id, whatever the rest of the program does in the meantime, and also
  -- when the request is cancelled while it waits.
  pub create_order-unregisters :
      (id : String) (s : S)
      → B.publish (order_created body idempotency_key) a.state ≡ (ok id, s)
      → Dict.lookup id
          (create_order J B default_reply_timeout meanwhile body wait idempotency_key
            a).1.replies.pending
        ≡ none
  unfolding create_order
  create_order-unregisters id s published =
      rw published (respond-unregistered id wait (record a { state = s }) positive)
