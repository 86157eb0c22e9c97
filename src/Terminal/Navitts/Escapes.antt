-- ===== src/Terminal/Navitts/Escapes.antt =====
-- `NaviTTES::parse_str` and `Attributes` of kernel/src/terminal/navitts.rs. A text with no escape
-- is kept as it is.
use navi_os.Base.{
  ℕ, zero, suc, ◌<◌, ◌≡◌, ◌≢◌, refl, true, false, List, [], ◌∷◌, length, ◌==◌, All, arith, bytes_eq,
  if◌then◌else◌,
}
use navi_os.Terminal.Navitts.{
  Run, ok, err, panic, running, ◌>>=◌, Value, byte_value, tuple, nil, cons, Attribute, NaviTtes,
  Sequences, follow, none_left, push, navi_es, navi_ess, plain_slice, owned_slice, lex_chars,
}
use navi_os.Terminal.Navitts.Parse.{parse_tokens}

pub record Attributes : Type 0 where
  pub fg : ℕ × ℕ × ℕ

abbrev pub default_attributes : Attributes
default_attributes = record { fg = (255, 255, 255) }

-- The three bytes of a colour; any other value leaves the colour as it is.
abbrev pub with_fg : Attributes → Value → Attributes
with_fg attrs (tuple (cons (byte_value r) (cons (byte_value g) (cons (byte_value b) nil)))) =
    record attrs { fg = (r, g, b) }
with_fg attrs value = attrs

unfoldable pub from_list : List Attribute → Attributes → Attributes
from_list [] attrs = attrs
from_list ((key, value) ∷ rest) attrs =
    from_list rest (if bytes_eq key (b'f' ∷ b'g' ∷ []) then with_fg attrs value else attrs)

-- The vector that a new sequence is pushed to.
abbrev pub ttes_of : NaviTtes → Run Sequences
ttes_of (navi_ess ttes) = ok ttes
ttes_of (plain_slice s) = ok (follow (plain_slice s) none_left)
ttes_of (navi_es attributes seq) = panic
ttes_of (owned_slice s) = panic

-- One escape, behind its `\[`: the new result, and what is left of the text. An escape that does
-- not parse is passed over.
unfoldable pub escape : ℕ → NaviTtes → List ℕ → Run (NaviTtes × List ℕ)
unfolding lex_chars parse_tokens
escape fuel result chars = do
  ttes ← ttes_of result
  lexed ← lex_chars fuel [] chars
  elim (parse_tokens fuel lexed.0) [
    | ok val ↦ ok (navi_ess (push ttes val), lexed.1)
    | err ↦ ok (result, lexed.1)
    | panic ↦ panic
    | running ↦ running
  ]

-- The loop of `parse_str`.
unfoldable pub parse_str_loop : ℕ → NaviTtes → List ℕ → Run NaviTtes
unfolding escape
parse_str_loop zero result chars = running
parse_str_loop (suc fuel) result [] = ok result
parse_str_loop (suc fuel) result (c ∷ []) = parse_str_loop fuel result []
parse_str_loop (suc fuel) result (c ∷ d ∷ cs) = elim (c == b'\\') [
  | false ↦ parse_str_loop fuel result (d ∷ cs)
  | true ↦ elim (d == b'[') [
    | false ↦ parse_str_loop fuel result cs
    | true ↦ escape fuel result cs >>= λ next. parse_str_loop fuel next.0 next.1
  ]
]

-- The whole text, which was put first, is dropped when something follows.
abbrev pub drop_first : NaviTtes → NaviTtes
drop_first (navi_ess (follow first (follow second rest))) = navi_ess (follow second rest)
drop_first (navi_ess (follow first none_left)) = navi_ess (follow first none_left)
drop_first (navi_ess none_left) = navi_ess none_left
drop_first (navi_es attributes seq) = navi_es attributes seq
drop_first (plain_slice s) = plain_slice s
drop_first (owned_slice s) = owned_slice s

unfoldable pub parse_str : ℕ → List ℕ → Run NaviTtes
unfolding parse_str_loop
parse_str fuel str = parse_str_loop fuel (plain_slice str) str >>= λ result. ok (drop_first result)

plain_loop :
    (fuel : ℕ) (result : NaviTtes) (chars : List ℕ)
    → length chars < fuel
    → All (λ c. c ≢ b'\\') chars
    → parse_str_loop fuel result chars ≡ ok result
unfolding parse_str_loop
plain_loop zero result chars h a = absurd (omega arith)
plain_loop (suc fuel) result [] h a = refl
plain_loop (suc fuel) result (c ∷ []) h a = plain_loop fuel result [] (omega arith) tt
plain_loop (suc fuel) result (c ∷ d ∷ cs) h a =
    let plain : (c == b'\\') ≡ false = ground (arith, a.0) in
    rw (parse_str_loop, plain) (plain_loop fuel result (d ∷ cs) (omega arith) a.1)

-- With more fuel than characters, `parse_str` returns a text without a backslash as it is.
pub parse_str-plain :
    (fuel : ℕ) (str : List ℕ)
    → length str < fuel
    → All (λ c. c ≢ b'\\') str
    → parse_str fuel str ≡ ok (plain_slice str)
unfolding parse_str
parse_str-plain fuel str h a = rw (plain_loop fuel (plain_slice str) str h a) refl
