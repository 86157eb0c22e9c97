-- ===== src/Terminal/Navitts.antt =====
-- kernel/src/terminal/navitts.rs: the tokens of an escape sequence and their parser. An iterator over
-- characters is the list of those that are left; the parser is the index of its current token. The
-- loops run on fuel.
pub mod Parse
pub mod Text
pub mod Fuel
pub mod Escapes
pub mod Tests
use navi_os.Base.{
  ℕ, zero, suc, ◌+◌, ◌-◌, ◌*◌, Bool, true, false, ◌&&◌, ◌||◌, Option, none, some, List, [], ◌∷◌,
  ◌++◌, ◌==◌, leb, ltb, if◌then◌else◌, length, get_elem?,
}

-- How a call ends: with a value, with the error, with a panic, or it still runs when the fuel is
-- gone.
pub data Run {ℓ} (A : Type ℓ) : Type ℓ where
  ok : A → Run A
  err : Run A
  panic : Run A
  running : Run A

infixl 5 ◌>>=◌
abbrev pub ◌>>=◌ {ℓ κ} : {A : Type ℓ} {B : Type κ} → Run A → (A → Run B) → Run B
ok a >>= f = f a
err >>= f = err
panic >>= f = panic
running >>= f = running

pub data Token : Type 0 where
  tuple_start tuple_end comma colon : Token
  ident slice : List ℕ → Token
  byte : ℕ → Token

mutual
  pub data Value : Type 0 where
    byte_value : ℕ → Value
    tuple : Values → Value

  pub data Values : Type 0 where
    nil : Values
    cons : Value → Values → Values

abbrev pub Attribute : Type 0
Attribute = List ℕ × Value

mutual
  pub data NaviTtes : Type 0 where
    navi_es : List Attribute → NaviTtes → NaviTtes
    navi_ess : Sequences → NaviTtes
    plain_slice : List ℕ → NaviTtes
    owned_slice : List ℕ → NaviTtes

  -- A vector of them.
  pub data Sequences : Type 0 where
    none_left : Sequences
    follow : NaviTtes → Sequences → Sequences

abbrev pub push : Sequences → NaviTtes → Sequences
push none_left t = follow t none_left
push (follow s ss) t = follow s (push ss t)

-- `('0'..'9').contains(c)`, which leaves out the `9`.
abbrev pub is_digit : ℕ → Bool
is_digit c = leb b'0' c && ltb c b'9'

-- The same for letters, without `z` and `Z`.
abbrev pub is_letter : ℕ → Bool
is_letter c = (leb b'a' c && ltb c b'z') || (leb b'A' c && ltb c b'Z')

-- The characters up to the first that fails the test, and the rest.
unfoldable pub take_while : (ℕ → Bool) → List ℕ → List ℕ × List ℕ
take_while test [] = ([], [])
take_while test (c ∷ cs) =
    let rest = take_while test cs in if test c then (c ∷ rest.0, rest.1) else ([], c ∷ cs)

-- `parse::<u8>().unwrap()` of digits.
abbrev pub digits_value : ℕ → List ℕ → ℕ
digits_value n [] = n
digits_value n (c ∷ cs) = digits_value (n * 10 + (c - b'0')) cs

unfoldable pub lex_number : List ℕ → ℕ → Run (ℕ × List ℕ)
unfolding take_while
lex_number chars first =
    let results = take_while is_digit chars in
    let n = digits_value 0 (first ∷ results.0) in if ltb n 256 then ok (n, results.1) else panic

unfoldable pub lex_ident : List ℕ → ℕ → List ℕ × List ℕ
unfolding take_while
lex_ident chars first = let results = take_while is_letter chars in (first ∷ results.0, results.1)

abbrev pub next_is_bar : List ℕ → Bool
next_is_bar [] = false
next_is_bar (c ∷ cs) = c == b'|'

-- Up to `||`, whose second bar is left.
unfoldable pub lex_slice : List ℕ → List ℕ × List ℕ
lex_slice [] = ([], [])
lex_slice (c ∷ cs) =
    let rest = lex_slice cs in
    if c == b'|' && next_is_bar cs then ([], cs) else (c ∷ rest.0, rest.1)

abbrev pub tail : List ℕ → List ℕ
tail [] = []
tail (c ∷ cs) = cs

-- What a character starts.
pub data Start : Type 0 where
  stop skip bar number letter other : Start
  mark : Token → Start

abbrev pub start_of : ℕ → Start
start_of c =
    if c == b']'
    then stop
    else if c == 32 || c == 10 || c == 9
    then skip
    else if c == b':'
    then mark colon
    else if c == b','
    then mark comma
    else if c == b'('
    then mark tuple_start
    else if c == b')'
    then mark tuple_end
    else if leb b'0' c && leb c b'9'
    then number
    else if (leb b'a' c && leb c b'z') || (leb b'A' c && leb c b'Z')
    then letter
    else if c == b'|'
    then bar
    else other

-- The tokens so far and what is left of the text.
unfoldable pub lex_chars : ℕ → List Token → List ℕ → Run (List Token × List ℕ)
unfolding lex_number lex_ident lex_slice
lex_chars zero results chars = running
lex_chars (suc fuel) results [] = ok (results, [])
lex_chars (suc fuel) results (c ∷ cs) = elim (start_of c) [
  | stop ↦ ok (results, cs)
  | skip ↦ lex_chars fuel results cs
  | mark token ↦ lex_chars fuel (results ++ token ∷ []) cs
  | number ↦ lex_number cs c >>= λ n. lex_chars fuel (results ++ byte n.0 ∷ []) n.1
  | letter ↦ lex_chars fuel (results ++ ident (lex_ident cs c).0 ∷ []) (lex_ident cs c).1
  | bar ↦ elim (next_is_bar cs) [
    | true ↦ lex_chars fuel (results ++ slice (lex_slice (tail cs)).0 ∷ []) (lex_slice (tail cs)).1
    | false ↦ lex_chars fuel results cs
  ]
  | other ↦ ok ([], cs)
]

-- `Parser::current`, which panics behind the last token.
abbrev pub current : List Token → ℕ → Run Token
current tokens i = elim (get_elem? tokens i) [ none ↦ panic | some token ↦ ok token ]

abbrev is_comma : Token → Bool
is_comma comma = true
is_comma tuple_start = false
is_comma tuple_end = false
is_comma colon = false
is_comma (ident s) = false
is_comma (slice s) = false
is_comma (byte b) = false
