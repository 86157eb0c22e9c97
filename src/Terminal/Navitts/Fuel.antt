-- ===== src/Terminal/Navitts/Fuel.antt =====
-- The lexer ends: each round takes at least one character.
use navi_os.Base.{
  ℕ, zero, suc, ◌≤◌, ◌<◌, ◌≢◌, Bool, true, false, ◌&&◌, List, [], ◌∷◌, ◌++◌, length, ltb, ◌==◌,
  arith, Bool-cases, inl, inr,
}
use navi_os.Terminal.Navitts.{
  Run, ok, panic, running, ◌>>=◌, Token, slice, ident, byte, Start, stop, skip, bar, number, letter,
  other, mark, start_of, take_while, lex_number, lex_ident, lex_slice, next_is_bar, tail, lex_chars,
  is_digit, digits_value, is_letter,
}

take_while-rest : (test : ℕ → Bool) (cs : List ℕ) → length (take_while test cs).1 ≤ length cs
unfolding take_while
take_while-rest test [] = omega arith
take_while-rest test (c ∷ cs) = elim (Bool-cases (test c)) [
  | inl e ↦ rw e (omega (arith, take_while-rest test cs))
  | inr e ↦ rw e (omega arith)
]

lex_slice-rest : (cs : List ℕ) → length (lex_slice cs).1 ≤ length cs
unfolding lex_slice
lex_slice-rest [] = omega arith
lex_slice-rest (c ∷ cs) = elim (Bool-cases (c == b'|' && next_is_bar cs)) [
  | inl e ↦ rw e (omega arith)
  | inr e ↦ rw e (omega (arith, lex_slice-rest cs))
]

length-tail : (cs : List ℕ) → length (tail cs) ≤ length cs
length-tail [] = omega arith
length-tail (c ∷ cs) = omega arith

ok-ne-running {ℓ} : {A : Type ℓ} (a : A) → ok a ≢ running
ok-ne-running a e = cc

panic-ne-running {ℓ} : {A : Type ℓ} → ◌≢◌ {A = Run A} panic running
panic-ne-running e = cc

-- `lex_chars` ends, with tokens or with a panic, when its fuel is more than the number of characters.
pub lex_chars-ends :
    (fuel : ℕ) (results : List Token) (chars : List ℕ)
    → length chars < fuel
    → lex_chars fuel results chars ≢ running
unfolding lex_chars lex_number lex_ident
lex_chars-ends zero results chars h = absurd (omega arith)
lex_chars-ends (suc fuel) results [] h = ok-ne-running (results, [])
lex_chars-ends (suc fuel) results (c ∷ cs) h = elim (start_of c) as (λ s. run s ≢ running) [
  | stop ↦ ok-ne-running (results, cs)
  | skip ↦ lex_chars-ends fuel results cs (omega arith)
  | mark token ↦ lex_chars-ends fuel (results ++ token ∷ []) cs (omega arith)
  | number ↦ elim (Bool-cases (ltb (digits_value 0 (c ∷ (take_while is_digit cs).0)) 256)) [
    | inl e ↦ rw e (
        lex_chars-ends fuel _ (take_while is_digit cs).1
          (omega (arith, take_while-rest is_digit cs)))
    | inr e ↦ rw e panic-ne-running
  ]
  | letter ↦
      lex_chars-ends fuel (results ++ ident (lex_ident cs c).0 ∷ []) (lex_ident cs c).1
        (omega (arith, take_while-rest is_letter cs))
  | bar ↦ elim (next_is_bar cs) as (λ b. after_bar b ≢ running) [
    | true ↦
        lex_chars-ends fuel (results ++ slice (lex_slice (tail cs)).0 ∷ []) (lex_slice (tail cs)).1
          (omega (arith, lex_slice-rest (tail cs), length-tail cs))
    | false ↦ lex_chars-ends fuel results cs (omega arith)
  ]
  | other ↦ ok-ne-running ([], cs)
]
  where
    after_bar : Bool → Run (List Token × List ℕ)
    after_bar b = elim b [
      | true ↦
          lex_chars fuel (results ++ slice (lex_slice (tail cs)).0 ∷ []) (lex_slice (tail cs)).1
      | false ↦ lex_chars fuel results cs
    ]

    run : Start → Run (List Token × List ℕ)
    run s = elim s [
      | stop ↦ ok (results, cs)
      | skip ↦ lex_chars fuel results cs
      | mark token ↦ lex_chars fuel (results ++ token ∷ []) cs
      | number ↦ lex_number cs c >>= λ n. lex_chars fuel (results ++ byte n.0 ∷ []) n.1
      | letter ↦ lex_chars fuel (results ++ ident (lex_ident cs c).0 ∷ []) (lex_ident cs c).1
      | bar ↦ after_bar (next_is_bar cs)
      | other ↦ ok ([], cs)
    ]
