-- ===== src/Terminal/Navitts/Text.antt =====
-- The texts of slices: how the lexer reads them, and what the parser makes of them.
use navi_os.Base.{
  ℕ, zero, suc, ◌≡◌, ◌≢◌, refl, true, false, List, [], ◌∷◌, ◌++◌, length, ltb, ◌==◌, All, arith,
}
use navi_os.Terminal.Navitts.{
  running, Token, slice, Sequences, none_left, push, owned_slice, lex_slice,
}
use navi_os.Terminal.Navitts.Parse.{parse_loop, parse_tokens}

-- The lexer reads a text without a bar up to the `||` behind it, and leaves the second bar.
pub lex_slice-append :
    (text rest : List ℕ)
    → All (λ c. c ≢ b'|') text
    → lex_slice (text ++ b'|' ∷ b'|' ∷ rest) ≡ (text, b'|' ∷ rest)
unfolding lex_slice
lex_slice-append [] rest h = refl
lex_slice-append (c ∷ text) rest h =
    let plain : (c == b'|') ≡ false = ground (arith, h.0) in
    rw (plain, lex_slice-append text rest h.1) refl

loop_stuck :
    (fuel : ℕ) (s : List ℕ) (tokens : List Token) (ttes : Sequences)
    → parse_loop fuel (slice s ∷ tokens) 0 ttes ≡ running
unfolding parse_loop
loop_stuck zero s tokens ttes = refl
loop_stuck (suc fuel) s tokens ttes =
    let inside : ltb 0 (length (slice s ∷ tokens)) ≡ true = ground arith in
    rw (parse_loop, inside) (loop_stuck fuel s tokens (push ttes (owned_slice s)))

-- When the first token is a slice without attributes, `parse_tokens` does not end: whatever the
-- fuel, it is still running.
pub parse_tokens-slice :
    (fuel : ℕ) (s : List ℕ) (tokens : List Token) → parse_tokens fuel (slice s ∷ tokens) ≡ running
unfolding parse_tokens
parse_tokens-slice fuel s tokens = rw (loop_stuck fuel s tokens none_left) refl
