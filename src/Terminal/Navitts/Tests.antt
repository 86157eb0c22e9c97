-- ===== src/Terminal/Navitts/Tests.antt =====
-- Runs of the lexer and of the parser.
use navi_os.Base.{ℕ, ◌≡◌, ◌≢◌, refl, List, [], ◌∷◌, ◌++◌, arith}
use navi_os.Terminal.Navitts.{
  ok, panic, running, NaviTtes, Token, tuple_start, tuple_end, comma, colon, ident, slice, byte,
  byte_value, tuple, nil, cons, navi_es, navi_ess, follow, none_left, plain_slice, owned_slice,
  lex_chars, lex_slice,
}
use navi_os.Terminal.Navitts.Parse.{parse_tokens}
use navi_os.Terminal.Navitts.Escapes.{parse_str, parse_str-plain, from_list, default_attributes}
use navi_os.Terminal.Navitts.Fuel.{lex_chars-ends}
use navi_os.Terminal.Navitts.Text.{lex_slice-append, parse_tokens-slice}

abbrev fg : List ℕ
fg = b'f' ∷ b'g' ∷ []

abbrev hi : List ℕ
hi = b'h' ∷ b'i' ∷ []

abbrev fg_tokens : List Token
fg_tokens =
    ident fg
    ∷ colon
    ∷ tuple_start
    ∷ byte 1
    ∷ comma
    ∷ byte 20
    ∷ comma
    ∷ byte 3
    ∷ tuple_end
    ∷ slice hi
    ∷ []

-- `fg: (1, 20, 3) ||hi||]!`
lexed :
    lex_chars 40 [] (
      fg
      ++ b':' ∷ 32 ∷ b'(' ∷ b'1' ∷ b',' ∷ b'2' ∷ b'0' ∷ b',' ∷ b'3' ∷ b')' ∷ b'|' ∷ b'|' ∷ hi
      ++ b'|' ∷ b'|' ∷ b']' ∷ b'!' ∷ [])
    ≡ ok (fg_tokens, b'!' ∷ [])
unfolding lex_chars
lexed = refl

parsed :
    parse_tokens 40 fg_tokens
    ≡ ok (
        navi_ess (
          follow
            (navi_es
              ((fg, tuple (cons (byte_value 1) (cons (byte_value 20) (cons (byte_value 3) nil))))
                ∷ [])
              (owned_slice hi))
            none_left))
unfolding parse_tokens
parsed = refl

-- A number past 255 panics.
too_large : lex_chars 9 [] (b'2' ∷ b'5' ∷ b'6' ∷ []) ≡ panic
unfolding lex_chars
too_large = refl

-- The digit 9 ends a number, if it is not its first.
split_number : lex_chars 9 [] (b'1' ∷ b'9' ∷ []) ≡ ok (byte 1 ∷ byte 9 ∷ [], [])
unfolding lex_chars
split_number = refl

h_not_bar : ◌≢◌ {A = ℕ} (b'h') (b'|')
h_not_bar = ground arith

i_not_bar : ◌≢◌ {A = ℕ} (b'i') (b'|')
i_not_bar = ground arith

lex_slice-append_example : lex_slice (hi ++ b'|' ∷ b'|' ∷ b']' ∷ []) ≡ (hi, b'|' ∷ b']' ∷ [])
lex_slice-append_example = lex_slice-append hi (b']' ∷ []) (h_not_bar, (i_not_bar, tt))

parse_tokens-slice_example : parse_tokens 100 (slice hi ∷ []) ≡ running
parse_tokens-slice_example = parse_tokens-slice 100 hi []

lex_chars-ends_example : lex_chars 4 [] (hi ++ b']' ∷ []) ≢ running
lex_chars-ends_example = lex_chars-ends 4 [] (hi ++ b']' ∷ []) (omega arith)

abbrev colour : NaviTtes
colour =
    navi_es
      ((fg, tuple (cons (byte_value 1) (cons (byte_value 20) (cons (byte_value 3) nil)))) ∷ [])
      (owned_slice hi)

-- `!\[fg: (1, 20, 3) ||hi||]!`: the text around the escape is dropped.
escaped :
    parse_str 60 (
      b'!' ∷ b'\\' ∷ b'[' ∷ fg
      ++ b':' ∷ b'(' ∷ b'1' ∷ b',' ∷ b'2' ∷ b'0' ∷ b',' ∷ b'3' ∷ b')' ∷ b'|' ∷ b'|' ∷ hi
      ++ b'|' ∷ b'|' ∷ b']' ∷ b'!' ∷ [])
    ≡ ok (navi_ess (follow (navi_ess (follow colour none_left)) none_left))
unfolding parse_str
escaped = refl

coloured :
    from_list
      ((fg, tuple (cons (byte_value 1) (cons (byte_value 20) (cons (byte_value 3) nil)))) ∷ [])
      default_attributes
    ≡ record { fg = (1, 20, 3) }
unfolding from_list
coloured = refl

h_not_backslash : ◌≢◌ {A = ℕ} b'h' b'\\'
h_not_backslash = ground arith

i_not_backslash : ◌≢◌ {A = ℕ} b'i' b'\\'
i_not_backslash = ground arith

parse_str-plain_example : parse_str 3 hi ≡ ok (plain_slice hi)
parse_str-plain_example =
    parse_str-plain 3 hi (omega arith) (h_not_backslash, (i_not_backslash, tt))
