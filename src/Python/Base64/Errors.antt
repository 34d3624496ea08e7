-- ===== src/Python/Base64/Errors.antt =====
-- What a decoding of base64 raises.
use jet_core_service_bus.Prelude.{String, ◌≡◌, Bool, true, inl, inr, arith, Bool-cases, [], ◌&&◌}
use jet_core_service_bus.Python.Exception.{Exception, ok, err, is_value_error, Result-cases}
use jet_core_service_bus.Python.Base64.{
  b64decode, scan, Move, move, Quad, start, prepend, is_nonempty, is_ascii, starts_padded,
}

-- What follows a move, where the rest of the scan raises as it should
module _ (strict : Bool) (s : String) (e : Exception)
    (rest : (q : Quad) → scan strict s q ≡ err e → is_value_error e ≡ true) where
  after_move :
      (m : Move)
      → (elim m [
        | Move.finish ↦ ok []
        | Move.fail ↦ err Exception.binascii_error
        | Move.skip q ↦ scan strict s q
        | Move.emit b q ↦ prepend b (scan strict s q)
      ])
        ≡ err e
      → is_value_error e ≡ true
  unfolding is_value_error
  after_move Move.finish k = absurd (ground arith)
  after_move Move.fail k = ground arith
  after_move (Move.skip q) k = rest q k
  after_move (Move.emit b q) k = elim (Result-cases (scan strict s q)) [
    | inl (bs, f) ↦ absurd (ground arith)
    | inr (x, f) ↦ rest q (ground arith)
  ]

scan-err :
    (strict : Bool) (s : String) (q : Quad) (e : Exception)
    → scan strict s q ≡ err e
    → is_value_error e ≡ true
unfolding scan is_value_error
scan-err strict String.[] q e h = ground arith
scan-err strict (String.◌∷◌ c s) q e h =
    after_move strict s e (λ q'. scan-err strict s q' e) (move strict c (is_nonempty s) q) h

-- Only a `ValueError`: the text is no base64, or is not in ASCII.
pub b64decode-err :
    (strict : Bool) (s : String) (e : Exception)
    → b64decode strict s ≡ err e
    → is_value_error e ≡ true
unfolding b64decode is_value_error
b64decode-err strict s e h = elim (Bool-cases (is_ascii s)) [
  | inr foreign ↦ ground arith
  | inl ascii ↦ elim (Bool-cases (strict && starts_padded s)) [
    | inl padded ↦ ground arith
    | inr proper ↦ scan-err strict s start e (ground arith)
  ]
]
