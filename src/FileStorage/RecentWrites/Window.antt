-- ===== src/FileStorage/RecentWrites/Window.antt =====
-- How long a write counts as recent (file_storage_adapter/recent_writes.py).
use jet_core_service_bus.Prelude.{
  ℕ, Bool, false, List, [], ◌∷◌, ◌+◌, Option, some, none, if◌then◌else◌, ltb, ◌≡◌, refl, arith, not,
  Bool-cases, inl, inr, ◌≤◌, All, ap, ◌∙◌,
}
use jet_core_service_bus.Python.Dict
use jet_core_service_bus.Python.Dict.{Dict, lookup-insert, lookup-erase}
use jet_core_service_bus.Python.Equality.{texts_eq_inst, contains, ◌=?◌}
use jet_core_service_bus.Python.PurePath.{PosixPath}
use jet_core_service_bus.FileStorage.RecentWrites.{
  RecentWrites, expired, erase_all, mark, prune, was_recent, is_some,
}

lookup-erase_all :
    (p : PosixPath) (ps : List PosixPath) (d : Dict PosixPath ℕ)
    → Dict.lookup p (erase_all ps d) ≡ (if contains ps p then none else Dict.lookup p d)
unfolding erase_all
lookup-erase_all p [] d = refl
lookup-erase_all p (q ∷ ps) d = ground (
  arith,
  lookup-erase_all p ps (Dict.erase q d),
  lookup-erase p q d,
  texts_eq_inst.equals_iff q p,
  texts_eq_inst.equals_iff p q,
)

-- No path has two times.
pub IsUnique : Dict PosixPath ℕ → Type 0
IsUnique [] = Unit
IsUnique ((p, at) ∷ d) = (Dict.lookup p d ≡ none) × IsUnique d

erase-IsUnique : (p : PosixPath) (d : Dict PosixPath ℕ) → IsUnique d → IsUnique (Dict.erase p d)
unfolding IsUnique Dict.erase
erase-IsUnique p [] u = u
erase-IsUnique p ((q, at) ∷ d) (absent, u) = elim (Bool-cases (q =? p)) [
  | inl same ↦ rw same (erase-IsUnique p d u)
  | inr other ↦ rw other (ground (arith, lookup-erase q p d), erase-IsUnique p d u)
]

insert-IsUnique :
    (p : PosixPath) (t : ℕ) (d : Dict PosixPath ℕ) → IsUnique d → IsUnique (Dict.insert p t d)
unfolding IsUnique Dict.insert Dict.lookup
insert-IsUnique p t [] u = (refl, tt)
insert-IsUnique p t ((q, at) ∷ d) (absent, u) = elim (Bool-cases (q =? p)) [
  | inl same ↦ rw same (absent, u)
  | inr other ↦ rw other (
    ground
        (arith, lookup-insert q p t d, texts_eq_inst.equals_iff q p, texts_eq_inst.equals_iff p q),
    insert-IsUnique p t d u,
  )
]

erase_all-IsUnique :
    (ps : List PosixPath) (d : Dict PosixPath ℕ) → IsUnique d → IsUnique (erase_all ps d)
unfolding erase_all
erase_all-IsUnique [] d u = u
erase_all-IsUnique (p ∷ ps) d u = erase_all-IsUnique ps (Dict.erase p d) (erase-IsUnique p d u)

-- A time that is not yet out of the window
pub alive : ℕ → ℕ → Option ℕ → Bool
alive ttl now none = false
alive ttl now (some at) = not (ltb (at + ttl) now)

gone : ℕ → ℕ → Option ℕ → Bool
gone ttl now none = false
gone ttl now (some at) = ltb (at + ttl) now

contains-expired :
    (ttl now : ℕ) (p : PosixPath) (d : Dict PosixPath ℕ)
    → IsUnique d
    → contains (expired ttl now d) p ≡ gone ttl now (Dict.lookup p d)
unfolding IsUnique expired gone Dict.lookup
contains-expired ttl now p [] u = refl
contains-expired ttl now p ((q, at) ∷ d) (absent, u) =
    let ih = contains-expired ttl now p d u in
    ground (arith, ih, absent, texts_eq_inst.equals_iff q p, texts_eq_inst.equals_iff p q)

alive-gone :
    (ttl t now : ℕ) (o : Option ℕ)
    → t ≤ now
    → alive ttl now (if gone ttl t o then none else o) ≡ alive ttl now o
unfolding alive gone
alive-gone ttl t now none h = refl
alive-gone ttl t now (some at) h = ground arith

-- What is asked of `RecentWrites`, the latest call first, each with its time
pub data Call : Type 0 where
  marks : PosixPath → ℕ → Call
  asks : PosixPath → ℕ → Call

unfoldable pub time : Call → ℕ
time (marks p t) = t
time (asks p t) = t

pub step : Call → RecentWrites → RecentWrites
step (marks p t) r = mark p t r
step (asks p t) r = (was_recent p t r).1

pub run : ℕ → List Call → RecentWrites
run ttl [] = record { ttl = ttl; marked_at = [] }
run ttl (c ∷ cs) = step c (run ttl cs)

pub last_mark : PosixPath → List Call → Option ℕ
last_mark p [] = none
last_mark p (marks q t ∷ cs) = if q =? p then some t else last_mark p cs
last_mark p (asks q t ∷ cs) = last_mark p cs

lookup-prune :
    (p : PosixPath) (t : ℕ) (r : RecentWrites)
    → IsUnique r.marked_at
    → Dict.lookup p (prune t r).marked_at
      ≡ (if gone r.ttl t (Dict.lookup p r.marked_at) then none else Dict.lookup p r.marked_at)
unfolding prune
lookup-prune p t r u = rw (lookup-erase_all, contains-expired r.ttl t p r.marked_at u) refl

run-IsUnique : (ttl : ℕ) (cs : List Call) → IsUnique (run ttl cs).marked_at
unfolding run step mark was_recent prune IsUnique
run-IsUnique ttl [] = tt
run-IsUnique ttl (marks p t ∷ cs) = insert-IsUnique p t _ (run-IsUnique ttl cs)
run-IsUnique ttl (asks p t ∷ cs) =
    erase_all-IsUnique (expired (run ttl cs).ttl t (run ttl cs).marked_at) (run ttl cs).marked_at
      (run-IsUnique ttl cs)

run-ttl : (ttl : ℕ) (cs : List Call) → (run ttl cs).ttl ≡ ttl
unfolding run step mark was_recent prune
run-ttl ttl [] = refl
run-ttl ttl (marks p t ∷ cs) = run-ttl ttl cs
run-ttl ttl (asks p t ∷ cs) = run-ttl ttl cs

run-alive :
    (ttl now : ℕ) (p : PosixPath) (cs : List Call)
    → All (λ c. time c ≤ now) cs
    → alive ttl now (Dict.lookup p (run ttl cs).marked_at) ≡ alive ttl now (last_mark p cs)
unfolding run step last_mark mark time was_recent Dict.lookup
run-alive ttl now p [] h = refl
run-alive ttl now p (marks q t ∷ cs) (before, h) =
    ground (arith, run-alive ttl now p cs h, lookup-insert p q t (run ttl cs).marked_at)
run-alive ttl now p (asks q t ∷ cs) (before, h) =
    ap (alive ttl now) (lookup-prune p t (run ttl cs) (run-IsUnique ttl cs))
    ∙ rw (run-ttl ttl cs) (alive-gone ttl t now (Dict.lookup p (run ttl cs).marked_at) before)
    ∙ run-alive ttl now p cs h

is_some-alive :
    (ttl now : ℕ) (o : Option ℕ) → is_some (if gone ttl now o then none else o) ≡ alive ttl now o
unfolding alive gone
is_some-alive ttl now none = refl
is_some-alive ttl now (some at) = ground arith

-- After any calls, each at a time no later than `now`, a path is recent at `now` exactly when it
-- was marked and its last mark is at most the time to live ago.
pub was_recent-run :
    (ttl now : ℕ) (p : PosixPath) (cs : List Call)
    → All (λ c. time c ≤ now) cs
    → (was_recent p now (run ttl cs)).0 ≡ alive ttl now (last_mark p cs)
unfolding was_recent
was_recent-run ttl now p cs h =
    ap is_some (lookup-prune p now (run ttl cs) (run-IsUnique ttl cs))
    ∙ rw (run-ttl ttl cs) (is_some-alive ttl now (Dict.lookup p (run ttl cs).marked_at))
    ∙ run-alive ttl now p cs h
