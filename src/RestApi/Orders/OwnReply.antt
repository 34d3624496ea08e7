-- ===== src/RestApi/Orders/OwnReply.antt =====
-- Whose reply a request is answered with (rest_api_service/app.py, `create_order`).
use jet_core_service_bus.Prelude.{
  ℕ, zero, suc, min, String, ◌≡◌, refl, Option, none, some, List, [], ◌∷◌, ◌++◌, get_elem?, arith,
  ◌∙◌, ap, sym, length, Bool,
}
use jet_core_service_bus.Python.Exception.{ok}
use jet_core_service_bus.Python.Json.{Bytes, JsonModule}
use jet_core_service_bus.Jetcore.Bus.{Bus}
use jet_core_service_bus.Jetcore.BusClient.{ReceivedEvent, details}
use jet_core_service_bus.RestApi.PendingReplies.{Future, Replies, register}
use jet_core_service_bus.RestApi.PendingReplies.Delivery.{
  Action, act, run, ids, run-IsKept, get_elem?-append_left, get_elem?-append_last, run-delivered,
}
use jet_core_service_bus.RestApi.Orders.{
  Response, Api, register_reply, answer, timed_out, accepted, await_reply, respond, create_order,
  order_created,
}

-- The actions on a table, the latest first
unfoldable pub act_all : List Action → Replies → Replies
act_all [] r = r
act_all (a ∷ later) r = act a (act_all later r)

run-append : (more earlier : List Action) → run (more ++ earlier) ≡ act_all more (run earlier)
unfolding run act_all
run-append [] earlier = refl
run-append (a ∷ more) earlier = ap (act a) (run-append more earlier)

-- Later registrations come behind.
get_elem?-ids :
    (more earlier : List Action) (i : ℕ) (id : String)
    → get_elem? (ids earlier) i ≡ some id
    → get_elem? (ids (more ++ earlier)) i ≡ some id
unfolding ids
get_elem?-ids [] earlier i id h = h
get_elem?-ids (Action.registers x ∷ more) earlier i id h =
    get_elem?-append_left (ids (more ++ earlier)) (x ∷ []) i id (get_elem?-ids more earlier i id h)
get_elem?-ids (Action.unregisters x ∷ more) earlier i id h = get_elem?-ids more earlier i id h
get_elem?-ids (Action.resolves e ∷ more) earlier i id h = get_elem?-ids more earlier i id h
get_elem?-ids (Action.expires j ∷ more) earlier i id h = get_elem?-ids more earlier i id h

-- The future that a request registers belongs to its id.
get_elem?-registered :
    (earlier : List Action) (id : String)
    → get_elem? (ids (Action.registers id ∷ earlier)) (register id (run earlier)).0 ≡ some id
unfolding ids register
get_elem?-registered earlier id =
    let kept = run-IsKept earlier in
    ground
      (arith, kept.sized, get_elem?-append_last (ids earlier) id (length (run earlier).futures))

module _ (J : JsonModule) where
  answer-resolved :
      (id : String) (o : Option Future)
      → (answer J id o).status_code ≡ 200
      → (event : ReceivedEvent) × (o ≡ some (Future.resolved event))
        × ((answer J id o).content ≡ event.payload)
  unfolding answer timed_out
  answer-resolved id (some (Future.resolved event)) h = (event, refl, refl)
  answer-resolved id (some Future.waiting) h = absurd (omega (arith, h))
  answer-resolved id (some Future.cancelled) h = absurd (omega (arith, h))
  answer-resolved id none h = absurd (omega (arith, h))

-- The event carries the id of the order, and its payload is the content of the response.
abbrev pub Answers : String → Response → Type 0
Answers id r =
    (event : ReceivedEvent) × (r.content ≡ event.payload)
    × ((details event).correlation_id ≡ some id)

module _ {S : Type 0} (J : JsonModule) (B : Bus S) (default_reply_timeout : ℕ)
    (meanwhile : ℕ → Api S → Bool × Api S) (earlier more : List Action)
    (acts : (ms : ℕ) (b : Api S) → (meanwhile ms b).1.replies ≡ act_all more b.replies) where
  await_reply-Answers :
      (id : String) (ms : ℕ) (b : Api S) (r : Response) (b' : Api S)
      → b.replies ≡ run (Action.registers id ∷ earlier)
      → await_reply J B default_reply_timeout meanwhile id ms (register id (run earlier)).0 b
        ≡ (ok r, b')
      → r.status_code ≡ 200
      → Answers id r
  unfolding await_reply
  await_reply-Answers id ms b r b' before h status =
      let i = (register id (run earlier)).0 in
      let all = more ++ Action.registers id ∷ earlier in
      let later : (meanwhile ms b).1.replies ≡ run all =
        acts ms b
        ∙ ap (act_all more) before
        ∙ sym (run-append more (Action.registers id ∷ earlier)) in
      let o = get_elem? (meanwhile ms b).1.replies.futures i in
      let same : answer J id o ≡ r = ground arith in
      let (event, found, content) =
        answer-resolved J id o (ap (λ (x : Response). x.status_code) same ∙ status) in
      let (owner, here, carries) =
        run-delivered all i event
          (ap (λ (t : Replies). get_elem? t.futures i) (sym later) ∙ found) in
      (
        event,
        sym (ap (λ (x : Response). x.content) same) ∙ content,
        carries
            ∙ sym here
            ∙ get_elem?-ids more (Action.registers id ∷ earlier) i id
                (get_elem?-registered earlier id),
      )

  respond-Answers :
      (id : String) (n : ℕ) (b : Api S) (r : Response) (b' : Api S)
      → b.replies ≡ run earlier
      → respond J B default_reply_timeout meanwhile id n b ≡ (ok r, b')
      → r.status_code ≡ 200
      → Answers id r
  unfolding respond accepted register_reply run act
  respond-Answers id zero b r b' before h status = absurd (ground (arith, status))
  respond-Answers id (suc n) b r b' before h status =
      await_reply-Answers id (min (suc n) default_reply_timeout)
        (record b { replies = (register id (run earlier)).1 }) r b' refl (rw before at h) status

  -- Let the table of replies come from some actions, and let what the rest of the program does
  -- while a request waits be further registrations, replies, timeouts and removals, in any order.
  -- When `create_order` publishes an order under an id and answers 200, the content is the payload
  -- of a reply that carries this id.
  pub create_order-Answers :
      (body : Bytes) (wait : ℕ) (idempotency_key : Option String) (a a' : Api S) (id : String)
      (s : S) (r : Response)
      → a.replies ≡ run earlier
      → B.publish (order_created body idempotency_key) a.state ≡ (ok id, s)
      → create_order J B default_reply_timeout meanwhile body wait idempotency_key a ≡ (ok r, a')
      → r.status_code ≡ 200
      → Answers id r
  unfolding create_order
  create_order-Answers body wait idempotency_key a a' id s r before published h status =
      respond-Answers id wait (record a { state = s }) r a' before (rw published at h) status
