-- ===== src/RestApi/PendingReplies/Lost.antt =====
-- A request whose id another request has removed (rest_api_service/pending_replies.py).
use jet_core_service_bus.Prelude.{
  ℕ, zero, suc, ◌<◌, ◌≡◌, ◌≢◌, refl, String, Option, none, some, List, [], ◌∷◌, ◌++◌, length,
  length-append, get_elem?, arith, inl, inr, Bool-cases, ◌∙◌, sym, ap,
}
use jet_core_service_bus.Python.Dict
use jet_core_service_bus.Python.Dict.{lookup-insert, lookup-erase}
use jet_core_service_bus.Python.Equality.{string_eq, ◌=?◌, equals_refl}
use jet_core_service_bus.Jetcore.BusClient.{ReceivedEvent, details}
use jet_core_service_bus.RestApi.PendingReplies.{
  Future, Replies, set_future, register, unregister, resolve, expire, cancel_found, resolve_found,
  resolve_for, set_result,
}
use jet_core_service_bus.RestApi.PendingReplies.Delivery.{
  Action, act, run, ids, run-IsKept, get_elem?-append_last, get_elem?-set_future, length-set_future,
}

below_length {ℓ} :
    {A : Type ℓ} (xs : List A) (i : ℕ) (x : A) → get_elem? xs i ≡ some x → i < length xs
below_length [] i x h = absurd (ground arith)
below_length (y ∷ ys) zero x h = ground arith
below_length (y ∷ ys) (suc i) x h = ground (arith, below_length ys i x h)

-- The future at that place holds no event.
abbrev pub IsUnanswered : ℕ → Replies → Type 0
IsUnanswered i r = (event : ReceivedEvent) → get_elem? r.futures i ≢ some (Future.resolved event)

-- It is there, too, and no id leads to it.
record IsLost (i : ℕ) (r : Replies) : Type 0 where
  made : i < length r.futures
  empty : IsUnanswered i r
  unreachable : (id : String) → Dict.lookup id r.pending ≢ some i

register-IsLost : (i : ℕ) (id : String) (r : Replies) → IsLost i r → IsLost i (register id r).1
unfolding register
register-IsLost i id r k = record {
  made = ground (arith, k.made, length-append r.futures (Future.waiting ∷ []));
  empty = λ event h.
      k.empty event (ground (arith, h, k.made, get_elem?-append_last r.futures Future.waiting i));
  unreachable = λ j h.
      k.unreachable j (ground (arith, h, k.made, lookup-insert j id (length r.futures) r.pending));
}

unregister-IsLost : (i : ℕ) (id : String) (r : Replies) → IsLost i r → IsLost i (unregister id r)
unfolding unregister
unregister-IsLost i id r k = record {
  made = k.made;
  empty = k.empty;
  unreachable = λ j h. k.unreachable j (ground (arith, h, lookup-erase j id r.pending));
}

set-IsLost :
    (i j : ℕ) (x : Future) (r : Replies)
    → ((event : ReceivedEvent) → x ≡ Future.resolved event → i ≢ j)
    → IsLost i r
    → IsLost i (record r { futures = set_future j x r.futures })
set-IsLost i j x r other k = record {
  made = ground (arith, k.made, length-set_future j x r.futures);
  empty = λ event h. elim (get_elem?-set_future j i x (Future.resolved event) r.futures h) [
    | inl (same, here) ↦ other event (sym same) here
    | inr before ↦ k.empty event before
  ];
  unreachable = k.unreachable;
}

cancel_found-IsLost :
    (i j : ℕ) (o : Option Future) (r : Replies) → IsLost i r → IsLost i (cancel_found j o r)
cancel_found-IsLost i j (some Future.waiting) r k =
    set-IsLost i j Future.cancelled r (λ event e. absurd (ground arith)) k
cancel_found-IsLost i j _ r k = k

set_result-IsLost :
    (event : ReceivedEvent) (i j : ℕ) (o : Option Future) (r : Replies)
    → i ≢ j
    → IsLost i r
    → IsLost i (set_result event j o r).1
set_result-IsLost event i j (some Future.waiting) r other k =
    set-IsLost i j (Future.resolved event) r (λ _ _. other) k
set_result-IsLost event i j _ r other k = k

resolve_found-IsLost :
    (event : ReceivedEvent) (i : ℕ) (id : String) (o : Option ℕ) (r : Replies)
    → Dict.lookup id r.pending ≡ o
    → IsLost i r
    → IsLost i (resolve_found event o r).1
resolve_found-IsLost event i id none r found k = k
resolve_found-IsLost event i id (some j) r found k =
    set_result-IsLost event i j (get_elem? r.futures j) r
      (λ same. k.unreachable id (found ∙ ap some (sym same))) k

resolve_for-IsLost :
    (event : ReceivedEvent) (i : ℕ) (o : Option String) (r : Replies)
    → IsLost i r
    → IsLost i (resolve_for event o r).1
resolve_for-IsLost event i none r k = k
resolve_for-IsLost event i (some id) r k =
    resolve_found-IsLost event i id (Dict.lookup id r.pending) r refl k

run-IsLost : (after l : List Action) (i : ℕ) → IsLost i (run l) → IsLost i (run (after ++ l))
unfolding run act expire resolve
run-IsLost [] l i k = k
run-IsLost (Action.registers id ∷ after) l i k =
    register-IsLost i id (run (after ++ l)) (run-IsLost after l i k)
run-IsLost (Action.unregisters id ∷ after) l i k =
    unregister-IsLost i id (run (after ++ l)) (run-IsLost after l i k)
run-IsLost (Action.resolves event ∷ after) l i k =
    resolve_for-IsLost event i (details event).correlation_id (run (after ++ l))
      (run-IsLost after l i k)
run-IsLost (Action.expires j ∷ after) l i k =
    cancel_found-IsLost i j (get_elem? (run (after ++ l)).futures j) (run (after ++ l))
      (run-IsLost after l i k)

unregisters-IsLost :
    (l : List Action) (i : ℕ) (id : String)
    → get_elem? (ids l) i ≡ some id
    → IsUnanswered i (run l)
    → IsLost i (run (Action.unregisters id ∷ l))
unfolding run act unregister
unregisters-IsLost l i id owner waits =
    let kept = run-IsKept l in
    record {
      made = ground (arith, kept.sized, below_length (ids l) i id owner);
      empty = waits;
      unreachable = λ j h. elim (Bool-cases (id =? j)) [
        | inl same ↦ absurd (ground (arith, h, lookup-erase j id (run l).pending))
        | inr other ↦ absurd (
            ground (
              arith,
              owner,
              kept.owned j i (ground (arith, h, lookup-erase j id (run l).pending)),
              equals_refl id,
            ))
      ];
    }

-- Let the future at a place be one that was registered under an id, hold no event after some
-- actions, and let then any request remove that id. Whatever registrations, replies, timeouts and
-- removals follow, the future never holds an event.
pub run-IsUnanswered :
    (l after : List Action) (i : ℕ) (id : String)
    → get_elem? (ids l) i ≡ some id
    → IsUnanswered i (run l)
    → IsUnanswered i (run (after ++ Action.unregisters id ∷ l))
run-IsUnanswered l after i id owner waits =
    let k =
      run-IsLost after (Action.unregisters id ∷ l) i (unregisters-IsLost l i id owner waits) in
    k.empty
