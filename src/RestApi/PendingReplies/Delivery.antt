-- ===== src/RestApi/PendingReplies/Delivery.antt =====
-- Which reply a waiting request gets (rest_api_service/pending_replies.py).
use jet_core_service_bus.Prelude.{
  length-append, ℕ, zero, suc, ◌≡◌, refl, String, Option, none, some, List, [], ◌∷◌, ◌++◌, length,
  get_elem?, arith, ◌==◌, if◌then◌else◌, inl, inr, ◌⊎◌, Bool-cases,
}
use jet_core_service_bus.Python.Dict
use jet_core_service_bus.Python.Dict.{lookup-insert, lookup-erase}
use jet_core_service_bus.Python.Equality.{string_eq, ◌=?◌}
use jet_core_service_bus.Jetcore.BusClient.{ReceivedEvent, details}
use jet_core_service_bus.RestApi.PendingReplies.{
  Future, Replies, no_replies, set_future, register, unregister, resolve, expire, cancel_found,
  resolve_found, resolve_for, set_result,
}

-- What the requests and the reply watcher do, in any order
pub data Action : Type 0 where
  registers : String → Action
  unregisters : String → Action
  resolves : ReceivedEvent → Action
  expires : ℕ → Action

unfoldable pub act : Action → Replies → Replies
act (Action.registers id) r = (register id r).1
act (Action.unregisters id) r = unregister id r
act (Action.resolves event) r = (resolve event r).1
act (Action.expires i) r = expire i r

-- The latest action comes first.
unfoldable pub run : List Action → Replies
run [] = no_replies
run (a ∷ later) = act a (run later)

-- The correlation ids of the registrations, in their order
unfoldable pub ids : List Action → List String
ids [] = []
ids (Action.registers id ∷ later) = ids later ++ id ∷ []
ids (_ ∷ later) = ids later

pub get_elem?-append_last {ℓ} :
    {A : Type ℓ} (xs : List A) (x : A) (i : ℕ)
    → get_elem? (xs ++ x ∷ []) i ≡ (if i == length xs then some x else get_elem? xs i)
get_elem?-append_last [] x zero = refl
get_elem?-append_last [] x (suc i) = ground arith
get_elem?-append_last (y ∷ ys) x zero = ground arith
get_elem?-append_last (y ∷ ys) x (suc i) = ground (arith, get_elem?-append_last ys x i)

pub get_elem?-append_left {ℓ} :
    {A : Type ℓ} (xs ys : List A) (i : ℕ) (y : A)
    → get_elem? xs i ≡ some y
    → get_elem? (xs ++ ys) i ≡ some y
get_elem?-append_left [] ys i y h = absurd (ground arith)
get_elem?-append_left (x ∷ xs) ys zero y h = h
get_elem?-append_left (x ∷ xs) ys (suc i) y h = get_elem?-append_left xs ys i y h

pub get_elem?-set_future :
    (i j : ℕ) (x z : Future) (xs : List Future)
    → get_elem? (set_future i x xs) j ≡ some z
    → ((z ≡ x) × (j ≡ i)) ⊎ (get_elem? xs j ≡ some z)
unfolding set_future
get_elem?-set_future i j x z [] h = inr h
get_elem?-set_future zero zero x z (y ∷ ys) h = inl (ground arith, refl)
get_elem?-set_future zero (suc j) x z (y ∷ ys) h = inr h
get_elem?-set_future (suc i) zero x z (y ∷ ys) h = inr h
get_elem?-set_future (suc i) (suc j) x z (y ∷ ys) h =
    ground (arith, get_elem?-set_future i j x z ys h)

pub length-set_future :
    (i : ℕ) (x : Future) (xs : List Future) → length (set_future i x xs) ≡ length xs
unfolding set_future
length-set_future i x [] = refl
length-set_future zero x (y ∷ ys) = refl
length-set_future (suc i) x (y ∷ ys) = ground (arith, length-set_future i x ys)

-- The futures belong to the registrations; a pending id leads to a future that was made for it; a
-- future holds only an event that carries the id it was made for.
pub record IsKept (owners : List String) (r : Replies) : Type 0 where
  pub sized : length r.futures ≡ length owners
  pub owned :
      (id : String) (i : ℕ) → Dict.lookup id r.pending ≡ some i → get_elem? owners i ≡ some id
  pub delivered :
      (i : ℕ) (event : ReceivedEvent)
      → get_elem? r.futures i ≡ some (Future.resolved event)
      → (id : String) × (get_elem? owners i ≡ some id) × ((details event).correlation_id ≡ some id)

register-IsKept :
    (id : String) (owners : List String) (r : Replies)
    → IsKept owners r
    → IsKept (owners ++ id ∷ []) (register id r).1
unfolding register
register-IsKept id owners r k = record {
  sized = ground (
    arith,
    k.sized,
    length-append r.futures (Future.waiting ∷ []),
    length-append owners (id ∷ []),
  );
  owned = λ j i h. elim (Bool-cases (id =? j)) [
    | inl same ↦ ground (
      arith,
      k.sized,
      h,
      lookup-insert j id (length r.futures) r.pending,
      string_eq.equals_iff id j,
      get_elem?-append_last owners id i,
    )
    | inr other ↦
        get_elem?-append_left owners (id ∷ []) i j
          (k.owned j i (ground (arith, h, lookup-insert j id (length r.futures) r.pending)))
  ];
  delivered = λ i event h.
      let (owner, here, carries) =
        k.delivered i event (ground (arith, h, get_elem?-append_last r.futures Future.waiting i)) in
      (owner, get_elem?-append_left owners (id ∷ []) i owner here, carries);
}

unregister-IsKept :
    (id : String) (owners : List String) (r : Replies)
    → IsKept owners r
    → IsKept owners (unregister id r)
unfolding unregister
unregister-IsKept id owners r k = record {
  sized = k.sized;
  owned = λ j i h. k.owned j i (ground (arith, h, lookup-erase j id r.pending));
  delivered = k.delivered;
}

set-IsKept :
    (event : ReceivedEvent) (id : String) (i : ℕ) (owners : List String) (r : Replies)
    → IsKept owners r
    → get_elem? owners i ≡ some id
    → (details event).correlation_id ≡ some id
    → IsKept owners (record r { futures = set_future i (Future.resolved event) r.futures })
set-IsKept event id i owners r k owner correlated = record {
  sized = ground (arith, k.sized, length-set_future i (Future.resolved event) r.futures);
  owned = k.owned;
  delivered = λ j e h.
      elim (get_elem?-set_future i j (Future.resolved event) (Future.resolved e) r.futures h) [
        | inl (same, here) ↦ (id, ground (arith, owner), ground (arith, correlated))
        | inr before ↦ k.delivered j e before
      ];
}

cancel-IsKept :
    (i : ℕ) (owners : List String) (r : Replies)
    → IsKept owners r
    → IsKept owners (record r { futures = set_future i Future.cancelled r.futures })
cancel-IsKept i owners r k = record {
  sized = ground (arith, k.sized, length-set_future i Future.cancelled r.futures);
  owned = k.owned;
  delivered = λ j e h. k.delivered j e (
      ground (arith, h, get_elem?-set_future i j Future.cancelled (Future.resolved e) r.futures h));
}

cancel_found-IsKept :
    (i : ℕ) (o : Option Future) (owners : List String) (r : Replies)
    → IsKept owners r
    → IsKept owners (cancel_found i o r)
cancel_found-IsKept i (some Future.waiting) owners r k = cancel-IsKept i owners r k
cancel_found-IsKept i _ owners r k = k

set_result-IsKept :
    (event : ReceivedEvent) (id : String) (i : ℕ) (o : Option Future) (owners : List String)
    (r : Replies)
    → IsKept owners r
    → get_elem? owners i ≡ some id
    → (details event).correlation_id ≡ some id
    → IsKept owners (set_result event i o r).1
set_result-IsKept event id i (some Future.waiting) owners r k owner correlated =
    set-IsKept event id i owners r k owner correlated
set_result-IsKept event id i _ owners r k owner correlated = k

resolve_found-IsKept :
    (event : ReceivedEvent) (id : String) (o : Option ℕ) (owners : List String) (r : Replies)
    → IsKept owners r
    → (details event).correlation_id ≡ some id
    → Dict.lookup id r.pending ≡ o
    → IsKept owners (resolve_found event o r).1
resolve_found-IsKept event id none owners r k correlated found = k
resolve_found-IsKept event id (some i) owners r k correlated found =
    set_result-IsKept event id i (get_elem? r.futures i) owners r k (k.owned id i found) correlated

resolve_for-IsKept :
    (event : ReceivedEvent) (o : Option String) (owners : List String) (r : Replies)
    → IsKept owners r
    → (details event).correlation_id ≡ o
    → IsKept owners (resolve_for event o r).1
resolve_for-IsKept event none owners r k correlated = k
resolve_for-IsKept event (some id) owners r k correlated =
    resolve_found-IsKept event id (Dict.lookup id r.pending) owners r k correlated refl

pub run-IsKept : (actions : List Action) → IsKept (ids actions) (run actions)
unfolding run ids act expire resolve Dict.lookup
run-IsKept [] = record {
  sized = refl;
  owned = λ id i h. absurd (ground arith);
  delivered = λ i event h. absurd (ground arith);
}
run-IsKept (Action.registers id ∷ later) =
    register-IsKept id (ids later) (run later) (run-IsKept later)
run-IsKept (Action.unregisters id ∷ later) =
    unregister-IsKept id (ids later) (run later) (run-IsKept later)
run-IsKept (Action.resolves event ∷ later) =
    resolve_for-IsKept event (details event).correlation_id (ids later) (run later)
      (run-IsKept later) refl
run-IsKept (Action.expires i ∷ later) =
    cancel_found-IsKept i (get_elem? (run later).futures i) (ids later) (run later)
      (run-IsKept later)

-- After registrations, replies, timeouts and removals in any order: when the future at a place
-- holds an event, a registration made that place, and the event carries the correlation id that it
-- registered.
pub run-delivered :
    (actions : List Action) (i : ℕ) (event : ReceivedEvent)
    → get_elem? (run actions).futures i ≡ some (Future.resolved event)
    → (id : String) × (get_elem? (ids actions) i ≡ some id)
      × ((details event).correlation_id ≡ some id)
run-delivered actions i event h = let k = run-IsKept actions in k.delivered i event h
