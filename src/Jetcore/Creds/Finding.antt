-- ===== src/Jetcore/Creds/Finding.antt =====
-- The search for the seed's block in the text of a credentials file (libs/jetcore/jetcore/creds.py).
use jet_core_service_bus.Prelude.{
  ℕ, zero, suc, ◌≡◌, refl, ◌⊎◌, inl, inr, Bool, true, false, ◌||◌, none, some, [], ◌∷◌, ◌++◌, ◌==◌,
  if◌then◌else◌, replicate, All, arith, ◌∙◌, ap, Bool-cases,
}
use jet_core_service_bus.Python.Json.{Bytes}
use jet_core_service_bus.Python.Text.{codes}
use jet_core_service_bus.Jetcore.Creds.{
  skip_dashes, dashes, literal, skip_blanks, newline, line, begin_marker, end_marker, after_dashes,
  match_here, search_seed, seed_of, or_else,
}

-- The end of a line: with a carriage return, or without
abbrev pub end_of_line : Bool → Bytes
end_of_line true = 13 ∷ 10 ∷ []
end_of_line false = 10 ∷ []

-- No carriage return and no line feed
abbrev pub IsLine : Bytes → Type 0
IsLine = All (λ b. (b == 13 || b == 10) ≡ false)

skip_dashes-replicate : (n : ℕ) (bs : Bytes) → skip_dashes (replicate n b'-' ++ bs) ≡ skip_dashes bs
unfolding skip_dashes
skip_dashes-replicate zero bs = refl
skip_dashes-replicate (suc n) bs = skip_dashes-replicate n bs

literal-append : (m bs : Bytes) → literal m (m ++ bs) ≡ some bs
unfolding literal
literal-append [] bs = refl
literal-append (x ∷ m) bs = ground (arith, literal-append m bs)

newline-end_of_line : (r : Bool) (bs : Bytes) → newline (end_of_line r ++ bs) ≡ some bs
unfolding newline
newline-end_of_line true bs = refl
newline-end_of_line false bs = refl

skip_blanks-end_of_line :
    (r : Bool) (bs : Bytes) → skip_blanks (end_of_line r ++ bs) ≡ end_of_line r ++ bs
unfolding skip_blanks
skip_blanks-end_of_line true bs = refl
skip_blanks-end_of_line false bs = refl

skip_dashes-end_of_line :
    (r : Bool) (bs : Bytes) → skip_dashes (end_of_line r ++ bs) ≡ end_of_line r ++ bs
unfolding skip_dashes
skip_dashes-end_of_line true bs = refl
skip_dashes-end_of_line false bs = refl

line-append :
    (l : Bytes) (r : Bool) (bs : Bytes)
    → IsLine l
    → line (l ++ (end_of_line r ++ bs)) ≡ (l, end_of_line r ++ bs)
unfolding line
line-append [] true bs h = refl
line-append [] false bs h = refl
line-append (b ∷ l) r bs (plain, h) = rw (plain, line-append l r bs h) refl

-- What follows the seed in the block, on its own line
abbrev block_end : Bool → ℕ → ℕ → Bytes → Bytes
block_end r k l rest =
    end_of_line r ++ (replicate (suc k) b'-' ++ (end_marker ++ (replicate (suc l) b'-' ++ rest)))

-- From the first marker on
abbrev from_marker : Bool → Bytes → ℕ → ℕ → ℕ → Bytes → Bytes
from_marker r seed m k l rest =
    begin_marker ++ (replicate (suc m) b'-' ++ (end_of_line r ++ (seed ++ block_end r k l rest)))

-- A block as `nsc` writes it, with any numbers of dashes around the markers.
abbrev pub seed_block : Bool → Bytes → ℕ → ℕ → ℕ → ℕ → Bytes → Bytes
seed_block r seed n m k l rest = replicate (suc n) b'-' ++ from_marker r seed m k l rest

dashes-replicate :
    (n : ℕ) (bs : Bytes) → dashes (replicate (suc n) b'-' ++ bs) ≡ some (skip_dashes bs)
unfolding dashes
dashes-replicate n bs = ap some (skip_dashes-replicate n bs)

skip_dashes-begin_marker : (bs : Bytes) → skip_dashes (begin_marker ++ bs) ≡ begin_marker ++ bs
unfolding skip_dashes codes
skip_dashes-begin_marker bs = refl

skip_dashes-end_marker : (bs : Bytes) → skip_dashes (end_marker ++ bs) ≡ end_marker ++ bs
unfolding skip_dashes codes
skip_dashes-end_marker bs = refl

search-cons :
    (b : ℕ) (bs : Bytes)
    → search_seed (b ∷ bs) ≡ (
        if b == b'-'
        then or_else (after_dashes (skip_dashes bs)) (search_seed bs)
        else search_seed bs)
unfolding search_seed match_here dashes
search-cons b bs = elim (Bool-cases (b == b'-')) [
  | inl dash ↦ rw dash refl
  | inr other ↦ rw other refl
]

module _ (r : Bool) (s : ℕ) (ss : Bytes) (m k l : ℕ) (rest : Bytes) (h : IsLine (s ∷ ss)) where
  seed_of-block_end : seed_of (s ∷ ss, block_end r k l rest) ≡ some (s ∷ ss)
  seed_of-block_end = rw (
    newline-end_of_line r _,
    dashes-replicate k _,
    skip_dashes-end_marker,
    literal-append end_marker _,
    dashes-replicate l _,
  )

  after_dashes-from_marker : after_dashes (from_marker r (s ∷ ss) m k l rest) ≡ some (s ∷ ss)
  unfolding after_dashes
  after_dashes-from_marker =
      rw
        (
          literal-append begin_marker _,
          dashes-replicate m _,
          skip_dashes-end_of_line r _,
          skip_blanks-end_of_line r _,
          newline-end_of_line r _,
          line-append (s ∷ ss) r _ h,
        )
        seed_of-block_end

  -- The text of the marker does not begin in what stands before the block.
  abbrev pub IsClear : Bytes → Bytes → Type 0
  IsClear [] block = Unit {0}
  IsClear (b ∷ bs) block = (literal begin_marker ((b ∷ bs) ++ block) ≡ none) × IsClear bs block

  skipped :
      (n : ℕ) (before : Bytes)
      → IsClear before (seed_block r (s ∷ ss) n m k l rest)
      → (after_dashes (skip_dashes (before ++ seed_block r (s ∷ ss) n m k l rest)) ≡ some (s ∷ ss))
        ⊎ (after_dashes (skip_dashes (before ++ seed_block r (s ∷ ss) n m k l rest)) ≡ none)
  unfolding skip_dashes after_dashes
  skipped n [] clear =
      inl (rw (skip_dashes-replicate n _, skip_dashes-begin_marker) after_dashes-from_marker)
  skipped n (b ∷ before) (away, clear) = elim (Bool-cases (b == b'-')) [
    | inl dash ↦ rw dash (skipped n before clear)
    | inr other ↦ inr (rw (other, away) refl)
  ]

  -- For a seed of at least one byte on a line of its own, any numbers of dashes and either end of
  -- line: the seed is found in a file that has the block, when the text of the first marker does
  -- not begin in what stands before the block.
  pub search_seed-block :
      (n : ℕ) (before : Bytes)
      → IsClear before (seed_block r (s ∷ ss) n m k l rest)
      → search_seed (before ++ seed_block r (s ∷ ss) n m k l rest) ≡ some (s ∷ ss)
  search_seed-block n [] clear = rw (
    search-cons b'-' (replicate n b'-' ++ from_marker r (s ∷ ss) m k l rest),
    skip_dashes-replicate n (from_marker r (s ∷ ss) m k l rest),
    skip_dashes-begin_marker,
    after_dashes-from_marker,
  )
  search_seed-block n (b ∷ before) (away, clear) =
      search-cons b (before ++ seed_block r (s ∷ ss) n m k l rest) ∙ elim (Bool-cases (b == b'-')) [
        | inr other ↦ rw other (search_seed-block n before clear)
        | inl dash ↦ elim (skipped n before clear) [
          | inl found ↦ rw (dash, found) refl
          | inr lost ↦ rw (dash, lost) (search_seed-block n before clear)
        ]
      ]
