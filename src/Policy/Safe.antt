-- ===== src/Policy/Safe.antt =====
-- internal/hp/policy.go: a SERVE verdict and the whole command.
use fasthack.Prelude.{
  ℕ, ◌≡◌, ◌⊎◌, inl, inr, Bool, true, false, ◌&&◌, Option, none, some, List, [], ◌∷◌, arith,
  Bool-cases, Option-cases, All, subst, sym,
}
use mathlib.Core.Option.{some-injective}
use fasthack.Text.{Text, is_empty, is_blank, in_set}
use fasthack.Policy.Tables.{pipe_shells}
use fasthack.Policy.Syntax.{
  Token, Segment, Sep, tokenize_segment, split_segments, has_command_substitution,
}
use fasthack.Policy.Words.{strip_env, cmd_base, non_hermetic_word, is_directory_change}
use fasthack.Policy.Heads.{serve, Verdict, classify_head}
use fasthack.Policy.Classify.{
  is_pipe, classify_words, classify_toks, classify_lexed, classify_segment, classify,
}
use fasthack.Policy.Hermetic.{AreHermetic, non_hermetic_word-AreHermetic}
use fasthack.Policy.Readers.{IsReader, head-IsReader}
use fasthack.Policy.Chain.{verdicts, AllServe, classify-AllServe}

-- The words of a segment, behind its env assignments, may be served.
abbrev pub AreSafe : Sep → List Token → Type 0
AreSafe sep [] = ⊥
AreSafe sep (t ∷ toks) =
    AreHermetic (t ∷ toks)
    × IsReader (t ∷ toks) (cmd_base t.text)
    × ((is_pipe sep && in_set pipe_shells (cmd_base t.text)) ≡ false)

-- The segment has its quotes closed and redirects nothing into a file.
abbrev pub IsSafe : Sep → Option (List Token × Bool) → Type 0
IsSafe sep none = ⊥
IsSafe sep (some (toks, redirect)) = (redirect ≡ false) × AreSafe sep (strip_env toks)

module _ (fuel : ℕ) (sep : Sep) where
  words_serve :
      (redirect : Bool) (head reason : Text) (toks : List Token)
      → classify_words fuel sep redirect head toks ≡ some (serve, reason)
      → (redirect ≡ false)
        × (is_empty (non_hermetic_word toks) ≡ true)
        × ((is_pipe sep && in_set pipe_shells head) ≡ false)
        × (classify_head fuel head toks ≡ some (serve, reason))
  unfolding classify_words
  words_serve redirect head reason toks r = ground arith

  toks-AreSafe :
      (redirect : Bool) (reason : Text) (toks : List Token)
      → classify_toks fuel sep redirect toks ≡ some (serve, reason)
      → (redirect ≡ false) × AreSafe sep toks
  unfolding classify_toks
  toks-AreSafe redirect reason [] r = cc r
  toks-AreSafe redirect reason (t ∷ toks) r =
      let (quiet, words, shell, h) = words_serve redirect (cmd_base t.text) reason (t ∷ toks) r in
      (
        quiet,
        (
          non_hermetic_word-AreHermetic (t ∷ toks) words,
          head-IsReader fuel (cmd_base t.text) reason (t ∷ toks) h,
          shell,
        ),
      )

  lexed-IsSafe :
      (reason : Text) (lexed : Option (List Token × Bool))
      → classify_lexed fuel sep lexed ≡ some (serve, reason)
      → IsSafe sep lexed
  unfolding classify_lexed
  lexed-IsSafe reason none r = cc r
  lexed-IsSafe reason (some (toks, redirect)) r = toks-AreSafe redirect reason (strip_env toks) r

segment-IsSafe :
    (fuel : ℕ) (seg : Segment) (v : Verdict)
    → classify_segment fuel seg ≡ some v
    → v.0 ≡ serve
    → IsSafe seg.sep (tokenize_segment seg.text)
unfolding classify_segment
segment-IsSafe fuel seg (p, reason) r e =
    lexed-IsSafe fuel seg.sep reason (tokenize_segment seg.text) (rw e at r)

-- Every segment is blank, a plain `cd`, or safe.
abbrev pub EachIsSafe : List Segment → Type 0
EachIsSafe segs =
    All
      (λ seg.
        (is_blank seg.text ≡ true)
        ⊎ (is_directory_change seg ≡ true)
        ⊎ IsSafe seg.sep (tokenize_segment seg.text))
      segs

segments-EachIsSafe :
    (fuel : ℕ) (segs : List Segment) (vs : List Verdict)
    → verdicts fuel segs ≡ some vs
    → All (λ v. v.0 ≡ serve) vs
    → EachIsSafe segs
unfolding verdicts
segments-EachIsSafe fuel [] vs e h = tt
segments-EachIsSafe fuel (seg ∷ segs) vs e h = elim (Bool-cases (is_blank seg.text)) [
  | inl b ↦ (inl b, segments-EachIsSafe fuel segs vs (rw b at e) h)
  | inr b ↦ elim (Bool-cases (is_directory_change seg)) [
    | inl c ↦ (inr (inl c), segments-EachIsSafe fuel segs vs (rw (b, c) at e) h)
    | inr c ↦ elim (Option-cases (classify_segment fuel seg)) [
      | inl n ↦ absurd (cc (rw (b, c, n) at e))
      | inr (v, n) ↦ elim (Option-cases (verdicts fuel segs)) [
        | inl m ↦ absurd (cc (rw (b, c, n, m) at e))
        | inr (ws, m) ↦
            let all : All (λ w. w.0 ≡ serve) (v ∷ ws) =
              subst (All (λ w. w.0 ≡ serve)) (sym (some-injective _ _ (rw (b, c, n, m) at e))) h in
            (
              inr (inr (segment-IsSafe fuel seg v n all.0)),
              segments-EachIsSafe fuel segs ws m all.1,
            )
      ]
    ]
  ]
]

serve-EachIsSafe :
    (fuel : ℕ) (segs : List Segment) → AllServe (verdicts fuel segs) → EachIsSafe segs
serve-EachIsSafe fuel segs h = elim (Option-cases (verdicts fuel segs)) [
  | inl n ↦ absurd (rw n at h)
  | inr ([], n) ↦ absurd (rw n at h)
  | inr (v ∷ vs, n) ↦ segments-EachIsSafe fuel segs (v ∷ vs) n (rw n at h)
]

-- A SERVE verdict means: no command substitution, and every segment is blank, a plain `cd`, or one
-- with closed quotes, with no redirection into a file, with no word that is not hermetic, with no
-- shell at the end of a pipe, and with a head that the tables list. Listed are the read and build
-- heads that are in no table of heads that write, print metadata or install, `ls` without its long
-- format; `git` with a subcommand that reads and neither writes nor reaches another repository;
-- `sed` with a flag for quiet printing and none that rewrites in place; `black --check`; `go`,
-- `cargo` and `npm` with a subcommand of their table; and an install head that runs an inner
-- command whose own head is listed.
pub classify-EachIsSafe :
    (fuel : ℕ) (cmd reason : Text)
    → classify fuel cmd ≡ some (serve, reason)
    → (has_command_substitution cmd ≡ false) × EachIsSafe (split_segments cmd)
classify-EachIsSafe fuel cmd reason r =
    let (s, all) = classify-AllServe fuel cmd reason r in
    (s, serve-EachIsSafe fuel (split_segments cmd) all)
