-- ===== src/Jetcore/Creds.antt =====
-- The seed in a `.creds` file (libs/jetcore/jetcore/creds.py). In `_SEED_BLOCK` no part can begin with
-- what the part before it repeats, so its matching needs no going back.
pub mod Finding
use jet_core_service_bus.Prelude.{
  ℕ, Bool, true, false, ◌||◌, Option, none, some, List, [], ◌∷◌, String, ◌==◌, if◌then◌else◌,
}
use jet_core_service_bus.Python.Exception.{Exception, Result, ok, err, ◌>>=◌}
use jet_core_service_bus.Python.Json.{Bytes}
use jet_core_service_bus.Python.Text.{codes, strip}
use jet_core_service_bus.Jetcore.Crypto.{Primitives, SigningKeyPair, keypair_from_seed}

-- `-*`
unfoldable pub skip_dashes : Bytes → Bytes
skip_dashes [] = []
skip_dashes (b ∷ bs) = let rest = skip_dashes bs in if b == b'-' then rest else b ∷ bs

-- `-+`
unfoldable pub dashes : Bytes → Option Bytes
dashes [] = none
dashes (b ∷ bs) = if b == b'-' then some (skip_dashes bs) else none

-- The text of a marker
unfoldable pub literal : Bytes → Bytes → Option Bytes
literal [] bs = some bs
literal (m ∷ ms) [] = none
literal (m ∷ ms) (b ∷ bs) = let rest = literal ms bs in if b == m then rest else none

-- `[ \t]*`
unfoldable pub skip_blanks : Bytes → Bytes
skip_blanks [] = []
skip_blanks (b ∷ bs) = let rest = skip_blanks bs in if b == 32 || b == 9 then rest else b ∷ bs

abbrev line_feed : Bytes → Option Bytes
line_feed [] = none
line_feed (b ∷ bs) = if b == 10 then some bs else none

-- `\r?\n`
unfoldable pub newline : Bytes → Option Bytes
newline [] = none
newline (b ∷ bs) = if b == 13 then line_feed bs else if b == 10 then some bs else none

abbrev onto_line : ℕ → Bytes × Bytes → Bytes × Bytes
onto_line b (line, rest) = (b ∷ line, rest)

-- `[^\r\n]*`
unfoldable pub line : Bytes → Bytes × Bytes
line [] = ([], [])
line (b ∷ bs) = let rest = line bs in if b == 13 || b == 10 then ([], b ∷ bs) else onto_line b rest

abbrev one_or_more : Bytes × Bytes → Option (Bytes × Bytes)
one_or_more ([], rest) = none
one_or_more (b ∷ bs, rest) = some (b ∷ bs, rest)

infixl 5 ◌and_then◌
abbrev pub ◌and_then◌ {ℓ κ} : {A : Type ℓ} {B : Type κ} → Option A → (A → Option B) → Option B
none and_then f = none
some a and_then f = f a

abbrev pub begin_marker : Bytes
begin_marker = codes "BEGIN USER NKEY SEED"

abbrev pub end_marker : Bytes
end_marker = codes "END USER NKEY SEED"

abbrev pub seed_of : Bytes × Bytes → Option Bytes
seed_of (seed, rest) =
    newline rest and_then dashes and_then literal end_marker and_then dashes and_then λ _. some seed

-- What follows the dashes of the first marker: the group `seed` of the match
unfoldable pub after_dashes : Bytes → Option Bytes
unfolding codes
after_dashes bs =
    literal begin_marker bs
    and_then dashes
    and_then (λ r. newline (skip_blanks r))
    and_then (λ r. one_or_more (line r) and_then seed_of)

-- A match of `_SEED_BLOCK` at the beginning
unfoldable pub match_here : Bytes → Option Bytes
match_here bs = dashes bs and_then after_dashes

abbrev pub or_else : Option Bytes → Option Bytes → Option Bytes
or_else none o = o
or_else (some b) o = some b

-- `_SEED_BLOCK.search(data)`, its group `seed`: the first place where it matches
unfoldable pub search_seed : Bytes → Option Bytes
unfolding match_here
search_seed [] = none
search_seed (b ∷ bs) = or_else (match_here (b ∷ bs)) (search_seed bs)

abbrev or_parse_error : Option Bytes → Result Bytes
or_parse_error none = err Exception.creds_parse_error
or_parse_error (some seed) = ok seed

-- `load_signing_keypair`, on the bytes of the file
unfoldable pub load_signing_keypair : Primitives → Bytes → Result SigningKeyPair
load_signing_keypair C file = do
  seed ← or_parse_error (search_seed file)
  text ← C.decode seed
  keypair_from_seed C (strip text)
