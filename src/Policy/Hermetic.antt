-- ===== src/Policy/Hermetic.antt =====
-- internal/hp/policy.go: the words of a segment that is SERVE.
use fasthack.Prelude.{
  ◌≡◌, refl, ◌⊎◌, inl, inr, Bool, true, false, List, [], ◌∷◌, arith, Bool-cases, All,
}
use fasthack.Text.{Text, text, is_empty, in_set, contains}
use fasthack.Text.Laws.{in_set-not_empty, none_empty}
use fasthack.Policy.Tables.{non_hermetic_heads}
use fasthack.Policy.Syntax.{Token}
use fasthack.Policy.Words.{is_flag, cmd_base, word_of, word_in, non_hermetic_word}

-- The token names no source of randomness, and is not itself a non-hermetic command: a head always
-- counts as one, another word where it is neither quoted nor a flag.
pub record IsHermetic (start : Bool) (t : Token) : Type 0 where
  pub no_random : contains (text "$RANDOM") t.bare ≡ false
  pub no_dev_urandom : contains (text "/dev/urandom") t.text ≡ false
  pub no_dev_random : contains (text "/dev/random") t.text ≡ false
  pub no_command :
      ((start ≡ false) × ((t.quoted ≡ true) ⊎ (is_flag t.text ≡ true)))
      ⊎ (in_set non_hermetic_heads (cmd_base t.text) ≡ false)

abbrev pub AreHermetic : List Token → Type 0
AreHermetic [] = Unit
AreHermetic (t ∷ toks) = IsHermetic true t × All (IsHermetic false) toks

heads_not_empty : (t : Text) → in_set non_hermetic_heads t ≡ true → is_empty t ≡ false
heads_not_empty t h =
    in_set-not_empty non_hermetic_heads t
      (unfold none_empty non_hermetic_heads is_empty text in refl) h

words_not_empty :
    (is_empty (text "$RANDOM") ≡ false)
    × (is_empty (text "/dev/urandom") ≡ false)
    × (is_empty (text "/dev/random") ≡ false)
unfolding is_empty text
words_not_empty = (refl, refl, refl)

word_no_command :
    (start : Bool) (t : Token)
    → is_empty (word_of start t) ≡ true
    → ((start ≡ false) × ((t.quoted ≡ true) ⊎ (is_flag t.text ≡ true)))
      ⊎ (in_set non_hermetic_heads (cmd_base t.text) ≡ false)
unfolding word_of
word_no_command start t h = elim (Bool-cases (in_set non_hermetic_heads (cmd_base t.text))) [
  | inr e ↦ inr e
  | inl e ↦ ground (arith, words_not_empty, heads_not_empty (cmd_base t.text))
]

word-IsHermetic :
    (start : Bool) (t : Token) → is_empty (word_of start t) ≡ true → IsHermetic start t
unfolding word_of
word-IsHermetic start t h = record {
  no_random = ground (arith, words_not_empty);
  no_dev_urandom = ground (arith, words_not_empty);
  no_dev_random = ground (arith, words_not_empty);
  no_command = word_no_command start t h;
}

words-AreHermetic :
    (toks : List Token) → is_empty (word_in false toks) ≡ true → All (IsHermetic false) toks
unfolding word_in
words-AreHermetic [] h = tt
words-AreHermetic (t ∷ toks) h = elim (Bool-cases (is_empty (word_of false t))) [
  | inl e ↦ (word-IsHermetic false t e, words-AreHermetic toks (rw e at h))
  | inr e ↦ absurd (cc (rw e at h, e))
]

-- An empty answer of `nonHermeticWord` clears every token.
pub non_hermetic_word-AreHermetic :
    (toks : List Token) → is_empty (non_hermetic_word toks) ≡ true → AreHermetic toks
unfolding non_hermetic_word word_in
non_hermetic_word-AreHermetic [] h = tt
non_hermetic_word-AreHermetic (t ∷ toks) h = elim (Bool-cases (is_empty (word_of true t))) [
  | inl e ↦ (word-IsHermetic true t e, words-AreHermetic toks (rw e at h))
  | inr e ↦ absurd (cc (rw e at h, e))
]
