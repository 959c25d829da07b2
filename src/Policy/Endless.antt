-- ===== src/Policy/Endless.antt =====
-- internal/hp/policy.go: the commands on which `Classify` does not return.
use fasthack.Prelude.{
  ℕ, suc, ◌+◌, ◌≡◌, refl, sym, ◌∙◌, subst, ◌↔◌, inl, inr, Bool, true, false, not, ◌&&◌, ◌||◌,
  Option, none, some, List, [], ◌∷◌, Bool-cases, and-eq-true,
}
use fasthack.Text.{Text, is_empty, is_blank, in_set}
use fasthack.Policy.Tables.{install_heads, pipe_shells}
use fasthack.Policy.Syntax.{
  Token, Segment, Sep, tokenize_segment, split_segments, has_command_substitution,
}
use fasthack.Policy.Words.{strip_env, cmd_base, non_hermetic_word, is_directory_change}
use fasthack.Policy.Heads.{delegate}
use fasthack.Policy.Classify.{
  is_pipe, demote, classify_words, classify_toks, classify_lexed, classify_segment, Tally, count,
  classify_loop, conclude, tally_start, classify,
}
use fasthack.Policy.Recursion.{classify_head-endless, classify_head-Settles}

-- The words of a segment reach an install head whose inner head is an install head.
abbrev pub wraps : Sep → List Token → Bool
wraps sep [] = false
wraps sep (t ∷ toks) =
    not (is_empty (cmd_base t.text))
    && not (is_pipe sep && in_set pipe_shells (cmd_base t.text))
    && is_empty (non_hermetic_word (t ∷ toks))
    && (in_set install_heads (cmd_base t.text) && in_set install_heads (delegate (t ∷ toks)))

abbrev pub wraps_lexed : Sep → Option (List Token × Bool) → Bool
wraps_lexed sep none = false
wraps_lexed sep (some (toks, redirect)) = wraps sep (strip_env toks)

-- The segment is counted, and wraps.
unfoldable pub is_endless : Segment → Bool
is_endless seg =
    not (is_blank seg.text)
    && not (is_directory_change seg)
    && wraps_lexed seg.sep (tokenize_segment seg.text)

unfoldable pub any_endless : List Segment → Bool
any_endless [] = false
any_endless (seg ∷ segs) = is_endless seg || any_endless segs

-- What a family of runs does with a test that tells the endless ones.
abbrev Ends {ℓ} : {A : Type ℓ} → Bool → (ℕ → Option A) → Type ℓ
Ends {A} endless run =
    (endless ≡ true → (fuel : ℕ) → run (suc (suc fuel)) ≡ none)
    × (endless ≡ false → (a : A) × ((fuel : ℕ) → run (suc (suc fuel)) ≡ some a))

-- A test that is decided either way gives the half of `Ends` that counts.
Ends-none {ℓ} :
    {A : Type ℓ} (endless : Bool) (run : ℕ → Option A)
    → endless ≡ true
    → ((fuel : ℕ) → run (suc (suc fuel)) ≡ none)
    → Ends endless run
Ends-none endless run e never = (λ _. never, λ f. cc)

Ends-some {ℓ} :
    {A : Type ℓ} (endless : Bool) (run : ℕ → Option A) (a : A)
    → endless ≡ false
    → ((fuel : ℕ) → run (suc (suc fuel)) ≡ some a)
    → Ends endless run
Ends-some endless run a e ends = (λ f. cc, λ _. (a, ends))

module _ (sep : Sep) (redirect : Bool) (head : Text) (toks : List Token) where
  -- The last test of `wraps`, where the first three let `classifyHead` run.
  head-Ends :
      is_empty head ≡ false
      → (is_pipe sep && in_set pipe_shells head) ≡ false
      → is_empty (non_hermetic_word toks) ≡ true
      → Ends
          (in_set install_heads head && in_set install_heads (delegate toks))
          (λ fuel. classify_words fuel sep redirect head toks)
  unfolding classify_words
  head-Ends e s w =
      elim (Bool-cases (in_set install_heads head && in_set install_heads (delegate toks))) [
        | inl endless ↦
            let (i, d) = and-eq-true _ _ endless in
            Ends-none _ (λ fuel. classify_words fuel sep redirect head toks) endless
              λ fuel. rw (e, s, w, classify_head-endless (suc (suc fuel)) head toks i d)
        | inr ends ↦
            let (v, r) = classify_head-Settles head toks ends in
            Ends-some _ (λ fuel. classify_words fuel sep redirect head toks) (demote redirect v)
              ends λ fuel. rw (e, s, w, r fuel)
      ]

  words_test :
      is_empty head ≡ false
      → (is_pipe sep && in_set pipe_shells head) ≡ false
      → is_empty (non_hermetic_word toks) ≡ true
      → (in_set install_heads head && in_set install_heads (delegate toks)) ≡ (
          not (is_empty head)
          && not (is_pipe sep && in_set pipe_shells head)
          && is_empty (non_hermetic_word toks)
          && (in_set install_heads head && in_set install_heads (delegate toks)))
  words_test e s w = rw (e, s, w) refl

  words-Ends :
      Ends
        (not (is_empty head)
          && not (is_pipe sep && in_set pipe_shells head)
          && is_empty (non_hermetic_word toks)
          && (in_set install_heads head && in_set install_heads (delegate toks)))
        (λ fuel. classify_words fuel sep redirect head toks)
  unfolding classify_words
  words-Ends = elim (Bool-cases (is_empty head)) [
    | inl e ↦ rw e (λ f. cc, λ _. (_, λ fuel. refl))
    | inr e ↦ elim (Bool-cases (is_pipe sep && in_set pipe_shells head)) [
      | inl s ↦ rw (e, s) (λ f. cc, λ _. (_, λ fuel. refl))
      | inr s ↦ elim (Bool-cases (is_empty (non_hermetic_word toks))) [
        | inl w ↦
            subst (λ b. Ends b (λ fuel. classify_words fuel sep redirect head toks))
              (words_test e s w) (head-Ends e s w)
        | inr w ↦ rw (e, s, w) (λ f. cc, λ _. (_, λ fuel. refl))
      ]
    ]
  ]

toks-Ends :
    (sep : Sep) (redirect : Bool) (toks : List Token)
    → Ends (wraps sep toks) (λ fuel. classify_toks fuel sep redirect toks)
unfolding classify_toks
toks-Ends sep redirect [] = (λ f. cc, λ _. (_, λ fuel. refl))
toks-Ends sep redirect (t ∷ toks) = words-Ends sep redirect (cmd_base t.text) (t ∷ toks)

lexed-Ends :
    (sep : Sep) (lexed : Option (List Token × Bool))
    → Ends (wraps_lexed sep lexed) (λ fuel. classify_lexed fuel sep lexed)
unfolding classify_lexed
lexed-Ends sep none = (λ f. cc, λ _. (_, λ fuel. refl))
lexed-Ends sep (some (toks, redirect)) = toks-Ends sep redirect (strip_env toks)

-- A segment is classified, or goes on for ever.
segment-Ends :
    (seg : Segment)
    → Ends (wraps_lexed seg.sep (tokenize_segment seg.text)) (λ fuel. classify_segment fuel seg)
unfolding classify_segment
segment-Ends seg = lexed-Ends seg.sep (tokenize_segment seg.text)

loop-Ends :
    (t : Tally) (segs : List Segment) → Ends (any_endless segs) (λ fuel. classify_loop fuel t segs)
unfolding any_endless is_endless classify_loop
loop-Ends t [] = (λ f. cc, λ _. (_, λ fuel. refl))
loop-Ends t (seg ∷ segs) = elim (Bool-cases (is_blank seg.text)) [
  | inl b ↦ rw b (loop-Ends t segs)
  | inr b ↦ elim (Bool-cases (is_directory_change seg)) [
    | inl c ↦ rw (b, c) (loop-Ends (record t { nav_only = t.nav_only + 1 }) segs)
    | inr c ↦ elim (Bool-cases (wraps_lexed seg.sep (tokenize_segment seg.text))) [
      | inl w ↦ rw (b, c, w) (λ _ fuel. rw ((segment-Ends seg).0 w fuel) refl, λ f. cc)
      | inr w ↦
          let (v, r) = (segment-Ends seg).1 w in
          rw (b, c, w)
            (
              λ e fuel. rw (r fuel) ((loop-Ends (count t v) segs).0 e fuel),
              λ e.
                  let (a, q) = (loop-Ends (count t v) segs).1 e in
                  (a, λ fuel. rw (r fuel) (q fuel)),
            )
    ]
  ]
]

-- `Classify` does not return on the command.
unfoldable pub never_returns : Text → Bool
never_returns cmd =
    not (is_blank cmd) && not (has_command_substitution cmd) && any_endless (split_segments cmd)

classify-Ends : (cmd : Text) → Ends (never_returns cmd) (λ fuel. classify fuel cmd)
unfolding never_returns classify
classify-Ends cmd = elim (Bool-cases (is_blank cmd)) [
  | inl b ↦ rw b (λ f. cc, λ _. (_, λ fuel. refl))
  | inr b ↦ elim (Bool-cases (has_command_substitution cmd)) [
    | inl s ↦ rw (b, s) (λ f. cc, λ _. (_, λ fuel. refl))
    | inr s ↦
        let (never, ends) = loop-Ends tally_start (split_segments cmd) in
        rw (b, s)
          (
            λ e fuel. rw (never e fuel) refl,
            λ e. let (t, r) = ends e in (conclude t, λ fuel. rw (r fuel) refl),
          )
  ]
]

-- `Classify` fails to return exactly on the commands with no command substitution of which some
-- counted segment, one that is neither blank nor a plain `cd`, with no shell behind a pipe and no word that is not hermetic, reaches
-- an install head whose inner head is an install head: no number of calls of `classifyHead`, from two
-- on, is enough for it.
pub classify-returns_iff :
    (fuel : ℕ) (cmd : Text) → (classify (suc (suc fuel)) cmd ≡ none) ↔ (never_returns cmd ≡ true)
classify-returns_iff fuel cmd =
    let (never, ends) = classify-Ends cmd in
    (
      λ n. elim (Bool-cases (never_returns cmd)) [
        | inl e ↦ e
        | inr e ↦ let (v, r) = ends e in absurd (cc (n, r fuel))
      ],
      λ e. never e fuel,
    )

-- Two calls of `classifyHead` for each segment decide: more change nothing, neither the policy nor
-- the reason.
pub classify-settles : (fuel : ℕ) (cmd : Text) → classify (suc (suc fuel)) cmd ≡ classify 2 cmd
classify-settles fuel cmd =
    let (never, ends) = classify-Ends cmd in
    elim (Bool-cases (never_returns cmd)) [
      | inl e ↦ never e fuel ∙ sym (never e 0)
      | inr e ↦ let (v, r) = ends e in r fuel ∙ sym (r 0)
    ]
