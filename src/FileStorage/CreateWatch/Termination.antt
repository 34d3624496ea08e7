-- ===== src/FileStorage/CreateWatch/Termination.antt =====
-- That the wait for a settled file ends (file_storage_adapter/create_watch.py, `wait_until_settled`).
use jet_core_service_bus.Prelude.{
  ℕ, zero, suc, ◌+◌, ℤ, ◌≡◌, refl, Option, none, some, ltb, ◌==◌, true, false, ◌<◌, arith, if-true,
}
use jet_core_service_bus.Python.Exec.{◌>>=◌, except_return, pure}
use jet_core_service_bus.Python.Exec.Hoare.{Triple, Ends, bind-Triple, except_return-Ends}
use jet_core_service_bus.Python.PurePath.{PosixPath}
use jet_core_service_bus.FileStorage.FileSystem.{FileSystem}
use jet_core_service_bus.FileStorage.CreateWatch.{
  next, wait, wait_until_settled, is_file_not_found, settle_poll_interval,
}

next-same : (n matches : ℕ) → next (ℤ.pos n) matches n ≡ (ℤ.pos n, suc matches)
unfolding next
next-same n matches = if-true {b = n == n} _ _ (ground arith)

module _ {S : Type 0} (F : FileSystem S) (path : PosixPath) (stable_reads : ℕ)
    (positive : 0 < stable_reads) (n : ℕ) (Q : S → Type 0)
    (sleeps : (ms : ℕ) → Triple Q (F.sleep ms) (λ _. Q) (λ _ _. ⊥))
    (reads : Triple Q (F.st_size path) (λ size s. (size ≡ n) × Q s) (λ _ _. ⊥)) where
  abbrev Returns : Option ℤ → S → Type 0
  Returns o s = o ≡ some (ℤ.pos n)

  turn-Returns :
      (fuel : ℕ) (last : ℤ) (matches : ℕ)
      → Triple Q
          (let (l, m) = next last matches n in wait F path stable_reads fuel l m)
          Returns
          (λ _ _. ⊥)
      → Triple Q
          (do
            _ ← F.sleep settle_poll_interval
            except_return (F.st_size path) is_file_not_found (pure none) λ size.
                let (last_size', matches') = next last matches size in
                wait F path stable_reads fuel last_size' matches')
          Returns
          (λ _ _. ⊥)
  turn-Returns fuel last matches again s q =
      bind-Triple Q (λ _. Q) Returns (λ _ _. ⊥) (F.sleep settle_poll_interval) _
        (sleeps settle_poll_interval)
        (λ _ s' q'.
          except_return-Ends (λ size s. (size ≡ n) × Q s) Returns (λ _ _. ⊥) (λ _ _. ⊥)
            (F.st_size path) is_file_not_found (pure none) _ (λ _ _ _ x. absurd x) (λ _ _ _ x. x)
            (λ size s'' (same, q''). rw same (again s'' q'')) s' (reads s' q'))
        s q

  wait-Returns :
      (fuel matches : ℕ)
      → fuel + matches ≡ stable_reads
      → Triple Q (wait F path stable_reads fuel (ℤ.pos n) matches) Returns (λ _ _. ⊥)
  unfolding wait
  wait-Returns zero matches h s q =
      let out : ltb matches stable_reads ≡ false = ground arith in rw out refl
  wait-Returns (suc fuel) matches h s q =
      let more : ltb matches stable_reads ≡ true = ground arith in
      rw more (
        turn-Returns fuel (ℤ.pos n) matches
          (rw (next-same n matches) (wait-Returns fuel (suc matches) (ground arith))) s q)

  -- With at least one stable reading asked for, in a world where sleeping and reading do not raise
  -- and the size read is always `n`: `stable_reads + 1` turns are enough for the wait to return,
  -- and it returns `n`.
  pub wait_until_settled-Returns :
      (s : S)
      → Q s
      → Ends Returns (λ _ _. ⊥) (wait_until_settled F path stable_reads (suc stable_reads) s)
  unfolding wait_until_settled wait next
  wait_until_settled-Returns s q =
      let more : ltb 0 stable_reads ≡ true = ground (arith, positive) in
      rw more
        (turn-Returns stable_reads (ℤ.negsuc 0) 0 (wait-Returns stable_reads 0 (ground arith)) s q)
