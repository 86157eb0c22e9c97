-- ===== src/Terminal/Navitts/Parse.antt =====
-- `Parser` of kernel/src/terminal/navitts.rs. Each call takes the index of the current token and
-- returns the index behind what it has read.
use navi_os.Base.{ℕ, zero, suc, ◌+◌, true, false, List, [], ◌∷◌, length, ltb}
use navi_os.Terminal.Navitts.{
  Run, ok, err, panic, running, ◌>>=◌, Token, tuple_start, tuple_end, comma, colon, ident, slice,
  byte, Value, byte_value, tuple, Values, nil, cons, Attribute, NaviTtes, Sequences, none_left,
  push, navi_es, navi_ess, owned_slice, current, is_comma,
}

-- `expect(Token::Colon)`
abbrev pub expect_colon : List Token → ℕ → Run ℕ
expect_colon tokens i = current tokens i >>= λ token. elim token [
  | colon ↦ ok (i + 1)
  | tuple_start ↦ err
  | tuple_end ↦ err
  | comma ↦ err
  | ident s ↦ err
  | slice s ↦ err
  | byte b ↦ err
]

-- `expect(Token::TupleEnd)`
abbrev pub expect_tuple_end : List Token → ℕ → Run ℕ
expect_tuple_end tokens i = current tokens i >>= λ token. elim token [
  | tuple_end ↦ ok (i + 1)
  | tuple_start ↦ err
  | colon ↦ err
  | comma ↦ err
  | ident s ↦ err
  | slice s ↦ err
  | byte b ↦ err
]

unfoldable mutual
  pub parse_value : ℕ → List Token → ℕ → Run (Value × ℕ)
  parse_value zero tokens i = running
  parse_value (suc fuel) tokens i = current tokens i >>= λ token. elim token [
    | byte b ↦ ok (byte_value b, i + 1)
    | tuple_start ↦ parse_value fuel tokens (i + 1) >>= λ first.
        parse_items fuel tokens first.1 >>= λ rest.
        expect_tuple_end tokens rest.1 >>= λ j. ok (tuple (cons first.0 rest.0), j)
    | tuple_end ↦ panic
    | comma ↦ panic
    | colon ↦ panic
    | ident s ↦ panic
    | slice s ↦ panic
  ]

  -- The loop over the further items of a tuple.
  pub parse_items : ℕ → List Token → ℕ → Run (Values × ℕ)
  parse_items zero tokens i = running
  parse_items (suc fuel) tokens i = current tokens i >>= λ token. elim (is_comma token) [
    | true ↦ parse_value fuel tokens (i + 1) >>= λ item.
        parse_items fuel tokens item.1 >>= λ rest. ok (cons item.0 rest.0, rest.1)
    | false ↦ ok (nil, i)
  ]

unfoldable pub parse_attribute : ℕ → List Token → ℕ → Run (Attribute × ℕ)
unfolding parse_value
parse_attribute fuel tokens i = current tokens i >>= λ token. elim token [
  | ident id ↦ expect_colon tokens (i + 1) >>= λ j.
      parse_value fuel tokens j >>= λ val. ok ((id, val.0), val.1)
  | tuple_start ↦ err
  | tuple_end ↦ err
  | comma ↦ err
  | colon ↦ err
  | slice s ↦ err
  | byte b ↦ err
]

-- The loop of `parse_attributes` behind its first attribute.
unfoldable pub more_attributes : ℕ → List Token → ℕ → Run (List Attribute × ℕ)
unfolding parse_attribute
more_attributes zero tokens i = running
more_attributes (suc fuel) tokens i = current tokens i >>= λ token. elim (is_comma token) [
  | true ↦ parse_attribute fuel tokens (i + 1) >>= λ attr.
      more_attributes fuel tokens attr.1 >>= λ rest. ok (attr.0 ∷ rest.0, rest.1)
  | false ↦ ok ([], i)
]

unfoldable pub parse_attributes : ℕ → List Token → ℕ → Run (List Attribute × ℕ)
unfolding more_attributes
parse_attributes fuel tokens i = do
  first ← parse_attribute fuel tokens i
  rest ← more_attributes fuel tokens first.1
  ok (first.0 ∷ rest.0, rest.1)

abbrev pub eat_slice : List Token → ℕ → Run (List ℕ)
eat_slice tokens i = current tokens i >>= λ token. elim token [
  | slice s ↦ ok s
  | ident s ↦ err
  | tuple_start ↦ err
  | tuple_end ↦ err
  | comma ↦ err
  | colon ↦ err
  | byte b ↦ err
]

-- The loop of `parse_tokens`. A slice without attributes does not move the index.
unfoldable pub parse_loop : ℕ → List Token → ℕ → Sequences → Run Sequences
unfolding parse_attributes
parse_loop zero tokens i ttes = running
parse_loop (suc fuel) tokens i ttes = elim (ltb i (length tokens)) [
  | false ↦ ok ttes
  | true ↦ current tokens i >>= λ token. elim token [
    | ident id ↦ parse_attributes fuel tokens i >>= λ attributes.
        eat_slice tokens attributes.1 >>= λ s.
        parse_loop fuel tokens (attributes.1 + 1) (push ttes (navi_es attributes.0 (owned_slice s)))
    | slice s ↦ parse_loop fuel tokens i (push ttes (owned_slice s))
    | tuple_start ↦ err
    | tuple_end ↦ err
    | comma ↦ err
    | colon ↦ err
    | byte b ↦ err
  ]
]

unfoldable pub parse_tokens : ℕ → List Token → Run NaviTtes
unfolding parse_loop
parse_tokens fuel tokens = parse_loop fuel tokens 0 none_left >>= λ ttes. ok (navi_ess ttes)
