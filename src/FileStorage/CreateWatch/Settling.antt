-- ===== src/FileStorage/CreateWatch/Settling.antt =====
-- When a file counts as settled (file_storage_adapter/create_watch.py, `wait_until_settled`).
use jet_core_service_bus.Prelude.{
  ◌≤◌, ℕ, zero, suc, ℤ, ◌≡◌, refl, Option, none, some, List, [], ◌∷◌, ◌++◌, replicate, ltb, ◌==◌,
  true, false, inl, inr, ◌<◌, arith, Bool-cases, subst,
}
use jet_core_service_bus.Python.Exec.{Exec, ◌>>=◌, except_return, pure}
use jet_core_service_bus.Python.Exec.Keeps.{Keeps}
use jet_core_service_bus.Python.Exec.Hoare.{
  Triple, Ends, bind-Triple, except_return-Ends, Keeps-Triple, weaken-Triple,
}
use jet_core_service_bus.Python.PurePath.{PosixPath}
use jet_core_service_bus.FileStorage.FileSystem.{FileSystem}
use jet_core_service_bus.FileStorage.CreateWatch.{
  next, wait, wait_until_settled, is_file_not_found, settle_poll_interval,
}

-- The loop's variables against the sizes read so far, the latest first
Agrees : ℤ → ℕ → List ℕ → Type 0
Agrees (ℤ.negsuc k) matches sizes = matches ≡ 0
Agrees (ℤ.pos n) matches sizes = (rest : List ℕ) × (sizes ≡ replicate (suc matches) n ++ rest)

next-Agrees :
    (last : ℤ) (matches size : ℕ) (sizes : List ℕ)
    → Agrees last matches sizes
    → Agrees (next last matches size).0 (next last matches size).1 (size ∷ sizes)
unfolding Agrees next
next-Agrees (ℤ.negsuc k) matches size sizes h = (sizes, refl)
next-Agrees (ℤ.pos n) matches size sizes (rest, h) = elim (Bool-cases (n == size)) [
  | inl same ↦ rw same (rest, ground (arith, h))
  | inr other ↦ rw other (sizes, refl)
]

next-le : (last : ℤ) (matches size : ℕ) → (next last matches size).1 ≤ suc matches
unfolding next
next-le (ℤ.negsuc k) matches size = ground arith
next-le (ℤ.pos n) matches size = elim (Bool-cases (n == size)) [
  | inl same ↦ rw same (ground arith)
  | inr other ↦ rw other (ground arith)
]

module _ {S : Type 0} (F : FileSystem S) (path : PosixPath) (stable_reads : ℕ)
    (positive : 0 < stable_reads) (Read : List ℕ → S → Type 0)
    (keeps_sleep : (ms : ℕ) (sizes : List ℕ) → Keeps (Read sizes) (F.sleep ms))
    (reads : (sizes : List ℕ)
      → Triple (Read sizes) (F.st_size path) (λ n. Read (n ∷ sizes)) (λ _. Read sizes)) where
  abbrev Standing : ℤ → ℕ → S → Type 0
  Standing last matches s =
      (sizes : List ℕ) × Read sizes s × Agrees last matches sizes × (matches ≤ stable_reads)

  -- The file is gone, or its size was the same in the last `stable_reads + 1` readings.
  abbrev pub Settled : Option ℤ → S → Type 0
  Settled none s = Unit
  Settled (some size) s =
      (n : ℕ) × (rest : List ℕ) × (size ≡ ℤ.pos n) × Read (replicate (suc stable_reads) n ++ rest) s

  exit-Settled :
      (last : ℤ) (matches : ℕ) (s : S)
      → ltb matches stable_reads ≡ false
      → Standing last matches s
      → Settled (some last) s
  unfolding Agrees
  exit-Settled (ℤ.negsuc k) matches s out (sizes, h, agrees, le) = absurd (ground (arith, positive))
  exit-Settled (ℤ.pos n) matches s out (sizes, h, (rest, e), le) =
      let same : matches ≡ stable_reads = ground arith in
      (
        n,
        rest,
        refl,
        subst (λ m. Read (replicate (suc m) n ++ rest) s) same (subst (λ l. Read l s) e h),
      )

  turn : ℕ → ℤ → ℕ → Exec S (Option ℤ)
  turn fuel last matches = do
    _ ← F.sleep settle_poll_interval
    except_return (F.st_size path) is_file_not_found (pure none) λ size.
        let (last_size', matches') = next last matches size in
        wait F path stable_reads fuel last_size' matches'

  turn-Settled :
      (fuel : ℕ) (last : ℤ) (matches : ℕ)
      → ltb matches stable_reads ≡ true
      → ((last' : ℤ) (matches' : ℕ)
          → Triple
              (Standing last' matches')
              (wait F path stable_reads fuel last' matches')
              Settled
              (λ _ _. Unit))
      → Triple (Standing last matches) (turn fuel last matches) Settled (λ _ _. Unit)
  unfolding turn
  turn-Settled fuel last matches more again s (sizes, h, agrees, le) =
      bind-Triple (Read sizes) (λ _. Read sizes) Settled (λ _ _. Unit)
        (F.sleep settle_poll_interval) _
        (weaken-Triple (F.sleep settle_poll_interval) (λ _ _ q. q) (λ _ _ _. tt)
          (Keeps-Triple (Read sizes) (F.sleep settle_poll_interval)
            (keeps_sleep settle_poll_interval sizes)))
        (λ _ s' h'.
          except_return-Ends (λ size. Read (size ∷ sizes)) Settled (λ _. Read sizes) (λ _ _. Unit)
            (F.st_size path) is_file_not_found (pure none) _ (λ _ _ _ _. tt) (λ _ _ _ _. tt)
            (λ size s'' q. again (next last matches size).0 (next last matches size).1 s'' (
              size ∷ sizes,
              q,
              next-Agrees last matches size sizes agrees,
              ground (arith, next-le last matches size),
            ))
            s' (reads sizes s' h'))
        s h

  wait-Settled :
      (fuel : ℕ) (last : ℤ) (matches : ℕ)
      → Triple
          (Standing last matches)
          (wait F path stable_reads fuel last matches)
          Settled
          (λ _ _. Unit)
  unfolding wait turn
  wait-Settled zero last matches s h = elim (Bool-cases (ltb matches stable_reads)) [
    | inl more ↦ rw more tt
    | inr out ↦ rw out (exit-Settled last matches s out h)
  ]
  wait-Settled (suc fuel) last matches s h = elim (Bool-cases (ltb matches stable_reads)) [
    | inl more ↦ rw more (turn-Settled fuel last matches more (wait-Settled fuel) s h)
    | inr out ↦ rw out (exit-Settled last matches s out h)
  ]

  -- With at least one stable reading asked for, and a world whose history of readings is followed
  -- by a predicate that sleeping keeps and every reading extends: a size that the wait returns was
  -- read `stable_reads + 1` times in a row at the end.
  pub wait_until_settled-Settled :
      (fuel : ℕ) (s : S)
      → Read [] s
      → Ends Settled (λ _ _. Unit) (wait_until_settled F path stable_reads fuel s)
  unfolding wait_until_settled Agrees
  wait_until_settled-Settled fuel s h =
      wait-Settled fuel (ℤ.negsuc 0) 0 s ([], h, refl, ground arith)
