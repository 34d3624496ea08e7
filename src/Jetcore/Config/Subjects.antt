-- ===== src/Jetcore/Config/Subjects.antt =====
-- Subjects separated by commas (libs/jetcore/jetcore/config.py, `_parse_subjects`).
use Prim.Native.Char.{Char, code}
use text.Mathlib.TextLemmas.{nil-append, cons-append}
use jet_core_service_bus.Prelude.{
  String, ◌<>◌, ◌≡◌, refl, Bool, true, false, not, ◌&&◌, List, [], ◌∷◌, ◌==◌, All, arith, ap, ◌∙◌,
  sym, subst, Bool-cases, inl, inr,
}
use jet_core_service_bus.Python.Exception.{Result, ok}
use jet_core_service_bus.Python.Json.{Json}
use jet_core_service_bus.Python.PurePath.{split}
use jet_core_service_bus.Python.Text.{is_space, lstrip, rstrip, strip, is_empty}
use jet_core_service_bus.Jetcore.Config.{
  starts_bracket, strip_all, texts, parse_stripped, parse_subjects,
}

-- The text begins with a character that is no white space.
abbrev pub first_plain : String → Bool
first_plain String.[] = false
first_plain (String.◌∷◌ c s) = not (is_space (code c))

-- It ends with such a character.
abbrev pub last_plain : String → Bool
last_plain String.[] = false
last_plain (String.◌∷◌ c String.[]) = not (is_space (code c))
last_plain (String.◌∷◌ c (String.◌∷◌ d s)) = last_plain (String.◌∷◌ d s)

abbrev pub lacks_comma : String → Bool
lacks_comma String.[] = true
lacks_comma (String.◌∷◌ c s) = not (code c == b',') && lacks_comma s

-- A subject as it may be written in the list: it is not empty, has no comma, and begins and ends with
-- no white space.
pub record IsSubject (s : String) : Type 0 where
  pub first : first_plain s ≡ true
  pub last : last_plain s ≡ true
  pub plain : lacks_comma s ≡ true

-- `",".join(…)`
unfoldable pub join_commas : String → List String → String
join_commas s [] = s
join_commas s (t ∷ ts) = s <> ("," <> join_commas t ts)

lstrip-first_plain : (s : String) → first_plain s ≡ true → lstrip s ≡ s
unfolding lstrip
lstrip-first_plain String.[] h = refl
lstrip-first_plain (String.◌∷◌ c s) h = elim (Bool-cases (is_space (code c))) [
  | inl space ↦ absurd (ground (arith, space))
  | inr plain ↦ rw plain refl
]

rstrip-cons :
    (c : Char) (s : String)
    → rstrip s ≡ s
    → is_empty s ≡ false
    → rstrip (String.◌∷◌ c s) ≡ String.◌∷◌ c s
unfolding rstrip
rstrip-cons c s h e = elim (Bool-cases (is_space (code c))) [
  | inl space ↦ rw (space, h, e) refl
  | inr plain ↦ rw (plain, h) refl
]

rstrip-last_plain : (s : String) → last_plain s ≡ true → rstrip s ≡ s
unfolding rstrip
rstrip-last_plain String.[] h = refl
rstrip-last_plain (String.◌∷◌ c String.[]) h = elim (Bool-cases (is_space (code c))) [
  | inl space ↦ absurd (ground (arith, space))
  | inr plain ↦ rw plain refl
]
rstrip-last_plain (String.◌∷◌ c (String.◌∷◌ d s)) h =
    rstrip-cons c (String.◌∷◌ d s) (rstrip-last_plain (String.◌∷◌ d s) h) refl

last_plain-cons : (c : Char) (s : String) → last_plain s ≡ true → last_plain (String.◌∷◌ c s) ≡ true
last_plain-cons c String.[] h = absurd (ground arith)
last_plain-cons c (String.◌∷◌ d s) h = h

last_plain-append : (s t : String) → last_plain t ≡ true → last_plain (s <> t) ≡ true
last_plain-append String.[] t h = subst (λ x. last_plain x ≡ true) (sym (nil-append t)) h
last_plain-append (String.◌∷◌ c s) t h =
    subst (λ x. last_plain x ≡ true) (sym (cons-append c s t))
      (last_plain-cons c (s <> t) (last_plain-append s t h))

first_plain-append : (s t : String) → first_plain s ≡ true → first_plain (s <> t) ≡ true
first_plain-append String.[] t h = absurd (ground arith)
first_plain-append (String.◌∷◌ c s) t h =
    subst (λ x. first_plain x ≡ true) (sym (cons-append c s t)) h

starts_bracket-append :
    (s t : String) → first_plain s ≡ true → starts_bracket (s <> t) ≡ starts_bracket s
starts_bracket-append String.[] t h = absurd (ground arith)
starts_bracket-append (String.◌∷◌ c s) t h = ap starts_bracket (cons-append c s t)

split-plain : (s : String) → lacks_comma s ≡ true → split b',' s ≡ s ∷ []
unfolding split
split-plain String.[] h = refl
split-plain (String.◌∷◌ c s) h = elim (Bool-cases (code c == b',')) [
  | inl comma ↦ absurd (ground (arith, comma))
  | inr other ↦ rw (other, split-plain s (ground (arith, other))) refl
]

split-append :
    (s t : String) → lacks_comma s ≡ true → split b',' (s <> ("," <> t)) ≡ s ∷ split b',' t
unfolding split
split-append String.[] t h =
    ap (split b',')
      (nil-append ("," <> t) ∙ cons-append "," "" t ∙ ap (String.◌∷◌ ",") (nil-append t))
split-append (String.◌∷◌ c s) t h = elim (Bool-cases (code c == b',')) [
  | inl comma ↦ absurd (ground (arith, comma))
  | inr other ↦
      ap (split b',') (cons-append c s ("," <> t))
      ∙ rw (other, split-append s t (ground (arith, other))) refl
]

first-join : (s : String) (ts : List String) → IsSubject s → first_plain (join_commas s ts) ≡ true
unfolding join_commas
first-join s [] h = h.first
first-join s (t ∷ ts) h = first_plain-append s _ h.first

last-join :
    (s : String) (ts : List String)
    → IsSubject s
    → All IsSubject ts
    → last_plain (join_commas s ts) ≡ true
unfolding join_commas
last-join s [] h hs = h.last
last-join s (t ∷ ts) h (k, hs) =
    last_plain-append s ("," <> join_commas t ts)
      (last_plain-append "," (join_commas t ts) (last-join t ts k hs))

split-join :
    (s : String) (ts : List String)
    → IsSubject s
    → All IsSubject ts
    → split b',' (join_commas s ts) ≡ s ∷ ts
unfolding join_commas
split-join s [] h hs = split-plain s h.plain
split-join s (t ∷ ts) h (k, hs) =
    split-append s (join_commas t ts) h.plain ∙ ap (◌∷◌ s) (split-join t ts k hs)

starts_bracket-join :
    (s : String) (ts : List String)
    → IsSubject s
    → starts_bracket (join_commas s ts) ≡ starts_bracket s
unfolding join_commas
starts_bracket-join s [] h = refl
starts_bracket-join s (t ∷ ts) h = starts_bracket-append s _ h.first

strip-plain : (s : String) → first_plain s ≡ true → last_plain s ≡ true → strip s ≡ s
unfolding strip
strip-plain s h k = ap rstrip (lstrip-first_plain s h) ∙ rstrip-last_plain s k

not_empty : (s : String) → first_plain s ≡ true → is_empty s ≡ false
not_empty String.[] h = absurd (ground arith)
not_empty (String.◌∷◌ c s) h = refl

strip_all-subjects : (ss : List String) → All IsSubject ss → strip_all ss ≡ ss
unfolding strip_all
strip_all-subjects [] h = refl
strip_all-subjects (s ∷ ss) (k, h) =
    rw (strip-plain s k.first k.last, not_empty s k.first, strip_all-subjects ss h) refl

module _ (loads : String → Result Json) where
  parse_stripped-join :
      (s : String) (ts : List String)
      → All IsSubject (s ∷ ts)
      → starts_bracket s ≡ false
      → parse_stripped loads (join_commas s ts) ≡ ok (Json.arr (texts (s ∷ ts)))
  unfolding parse_stripped
  parse_stripped-join s ts (k, h) b = rw (
    not_empty (join_commas s ts) (first-join s ts k),
    starts_bracket-join s ts k,
    b,
    split-join s ts k h,
    strip_all-subjects (s ∷ ts) (k, h),
  )

  -- A list of subjects, which have no comma and begin and end with no white space, and of which the
  -- first begins with no bracket, is read back from the text that has commas between them.
  pub parse_subjects-join :
      (s : String) (ts : List String)
      → All IsSubject (s ∷ ts)
      → starts_bracket s ≡ false
      → parse_subjects loads (Json.str (join_commas s ts)) ≡ ok (Json.arr (texts (s ∷ ts)))
  unfolding parse_subjects
  parse_subjects-join s ts (k, h) b =
      ap (parse_stripped loads)
        (strip-plain (join_commas s ts) (first-join s ts k) (last-join s ts k h))
      ∙ parse_stripped-join s ts (k, h) b
