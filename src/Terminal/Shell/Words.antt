-- ===== src/Terminal/Shell/Words.antt =====
-- The words of a line.
use navi_os.Base.{
  ℕ, ◌==◌, ◌&&◌, ◌≡◌, refl, sym, ◌∙◌, ap, arith, Bool, true, false, not, Bool-cases, inl, inr, List,
  [], ◌∷◌, ◌++◌, All, absent,
}
use navi_os.Terminal.Shell.Dispatch.{split_words, quoted, onto_word}

-- The words with a space between each two.
abbrev pub unwords : List (List ℕ) → List ℕ
unwords [] = []
unwords (word ∷ []) = word
unwords (word ∷ next ∷ words) = word ++ (32 ∷ unwords (next ∷ words))

abbrev IsCons : List (List ℕ) → Type 0
IsCons words = (word : List ℕ) × (rest : List (List ℕ)) × (words ≡ word ∷ rest)

split_words-IsCons : (open_string : Bool) (cs : List ℕ) → IsCons ((split_words open_string cs).0)
unfolding split_words
split_words-IsCons open_string [] = ([], [], refl)
split_words-IsCons open_string (c ∷ cs) =
    elim (Bool-cases (c == 32 && not (quoted open_string c))) [
      | inl space ↦ rw space ([], (split_words (quoted open_string c) cs).0, refl)
      | inr other ↦
          let (word, rest, e) = split_words-IsCons (quoted open_string c) cs in
          rw (other, e) (c ∷ word, rest, refl)
    ]

unwords-onto :
    (c : ℕ) (word : List ℕ) (rest : List (List ℕ))
    → unwords ((c ∷ word) ∷ rest) ≡ c ∷ unwords (word ∷ rest)
unwords-onto c word [] = refl
unwords-onto c word (next ∷ rest) = refl

-- The words joined by spaces are the line.
pub unwords-split_words :
    (open_string : Bool) (cs : List ℕ) → unwords ((split_words open_string cs).0) ≡ cs
unfolding split_words
unwords-split_words open_string [] = refl
unwords-split_words open_string (c ∷ cs) =
    let now = quoted open_string c in
    let (word, rest, e) = split_words-IsCons now cs in
    let ih = unwords-split_words now cs in
    elim (Bool-cases (c == 32 && not now)) [
      | inl space ↦
          let same : 32 ≡ c = ground arith in
          rw (space, e)
            (ap (λ ws. 32 ∷ unwords ws) (sym e) ∙ ap (λ w. 32 ∷ w) ih ∙ ap (λ d. d ∷ cs) same)
      | inr other ↦
          rw (other, e)
            (unwords-onto c word rest ∙ ap (λ ws. c ∷ unwords ws) (sym e) ∙ ap (λ w. c ∷ w) ih)
    ]

-- A line without a quotation mark has no open string, and no space in a word.
record IsPlain (split : List (List ℕ) × Bool) : Type 0 where
  closed : split.1 ≡ false
  no_space : All (λ word. absent 32 word ≡ true) (split.0)

onto_word-no_space :
    (c : ℕ) (words : List (List ℕ))
    → (c == 32) ≡ false
    → All (λ word. absent 32 word ≡ true) words
    → All (λ word. absent 32 word ≡ true) (onto_word c words)
onto_word-no_space c [] ne a = (rw ne refl, tt)
onto_word-no_space c (word ∷ words) ne a = (rw ne (a.0), a.1)

split_words-IsPlain : (cs : List ℕ) → absent b'"' cs ≡ true → IsPlain (split_words false cs)
unfolding split_words
split_words-IsPlain [] h = record { closed = refl; no_space = (refl, tt) }
split_words-IsPlain (c ∷ cs) h = elim (Bool-cases (c == b'"')) [
  | inl quote ↦ absurd (false-ne-true (sym (rw quote refl) ∙ h))
  | inr plain ↦
      let ih = split_words-IsPlain cs (sym (rw plain refl) ∙ h) in
      elim (Bool-cases (c == 32)) [
        | inl space ↦
            rw (plain, space) (record { closed = ih.closed; no_space = (refl, ih.no_space) })
        | inr other ↦
            rw (plain, other)
              (record {
                closed = ih.closed;
                no_space = onto_word-no_space c ((split_words false cs).0) other ih.no_space;
              })
      ]
]
  where
    false-ne-true : false ≡ true → ⊥
    false-ne-true e = cc

-- The words of a line without a quotation mark.
pub record Splits (cs : List ℕ) (split : List (List ℕ) × Bool) : Type 0 where
  pub joined : unwords (split.0) ≡ cs
  pub closed : split.1 ≡ false
  pub no_space : All (λ word. absent 32 word ≡ true) (split.0)

-- In a line without a quotation mark no string is open, no word has a space, and the words with a
-- space between each two are the line.
pub split_words-Splits : (cs : List ℕ) → absent b'"' cs ≡ true → Splits cs (split_words false cs)
split_words-Splits cs h =
    let plain = split_words-IsPlain cs h in
    record {
      joined = unwords-split_words false cs;
      closed = plain.closed;
      no_space = plain.no_space;
    }
