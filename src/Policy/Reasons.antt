-- ===== src/Policy/Reasons.antt =====
-- internal/hp/policy.go: the reasons of the verdicts. The loop of `Classify` takes an empty reason to
-- mean that no segment has been counted yet.
use fasthack.Prelude.{
  ℕ, zero, suc, ◌≡◌, refl, Bool, true, false, Option, none, some, List, [], ◌∷◌, ◌++◌, String,
  arith, inl, inr, subst, Bool-cases, Option-cases,
}
use fasthack.Text.{Text, text, is_empty, in_set}
use fasthack.Text.Laws.{is_empty-append}
use fasthack.Policy.Tables.{go_subs, cargo_subs, npm_subs, install_heads}
use fasthack.Policy.Syntax.{Token, Segment, Sep, tokenize_segment}
use fasthack.Policy.Words.{rest, first_subcommand, strip_env, cmd_base}
use fasthack.Policy.Heads.{
  serve, Verdict, classify_git_sub, classify_git, sed_loop, classify_sed, classify_black,
  classify_sub, classify_early, classify_late, delegate, through, install_verdict, classify_head,
}
use fasthack.Policy.Classify.{
  demote, classify_words, classify_toks, classify_lexed, classify_segment,
}

-- The verdict, if there is one, has a reason.
abbrev pub Explains : Option Verdict → Type 0
Explains none = Unit
Explains (some v) = is_empty v.1 ≡ false

git-Explains : (toks : List Token) → is_empty (classify_git toks).1 ≡ false
unfolding classify_git classify_git_sub text is_empty
git-Explains toks = ground arith

sub-Explains :
    (head : Text) (subs : List String) (sub : Text)
    → is_empty (classify_sub head subs sub).1 ≡ false
unfolding classify_sub text is_empty
sub-Explains head subs sub = ground arith

black-Explains : (toks : List Token) → is_empty (classify_black toks).1 ≡ false
unfolding classify_black text is_empty
black-Explains toks = ground arith

sed_loop-Explains : (saw_n : Bool) (toks : List Token) → is_empty (sed_loop saw_n toks).1 ≡ false
unfolding sed_loop text is_empty
sed_loop-Explains true [] = refl
sed_loop-Explains false [] = refl
sed_loop-Explains saw_n (t ∷ toks) =
    ground (arith, sed_loop-Explains true toks, sed_loop-Explains saw_n toks)

late-Explains : (head : Text) → is_empty (classify_late head).1 ≡ false
unfolding classify_late text is_empty
late-Explains head = ground arith

early-Explains : (head : Text) (toks : List Token) → Explains (classify_early head toks)
unfolding classify_early classify_sed text is_empty
early-Explains head toks = ground (
  arith,
  git-Explains toks,
  sed_loop-Explains false (rest toks),
  black-Explains toks,
  sub-Explains head go_subs (first_subcommand toks),
  sub-Explains head cargo_subs (first_subcommand toks),
  sub-Explains head npm_subs (first_subcommand toks),
)

append-not_empty : (s t : Text) → is_empty t ≡ false → is_empty (s ++ t) ≡ false
append-not_empty s t e = ground (arith, is_empty-append s t)

through-Explains :
    (head : Text) (toks : List Token) (v : Verdict)
    → is_empty v.1 ≡ false
    → is_empty (through head toks v).1 ≡ false
unfolding through
through-Explains head toks v e = append-not_empty _ v.1 e

install-Explains : is_empty install_verdict.1 ≡ false
unfolding install_verdict text is_empty
install-Explains = refl

pub head-Explains :
    (fuel : ℕ) (head : Text) (toks : List Token) → Explains (classify_head fuel head toks)
unfolding classify_head
head-Explains zero head toks = tt
head-Explains (suc fuel) head toks = elim (Option-cases (classify_early head toks)) [
  | inr (v, e) ↦ rw (e, classify_head) (subst Explains e (early-Explains head toks))
  | inl e ↦ elim (Bool-cases (in_set install_heads head)) [
    | inr i ↦ rw (e, i, classify_head) (late-Explains head)
    | inl i ↦ elim (Bool-cases (is_empty (delegate toks))) [
      | inl d ↦ rw (e, i, d, classify_head) install-Explains
      | inr d ↦ elim (Option-cases (classify_head fuel (delegate toks) toks)) [
        | inl r ↦ rw (e, i, d, r, classify_head) tt
        | inr (v, r) ↦
            rw (e, i, d, r, classify_head)
              (through-Explains head toks v
                (subst Explains r (head-Explains fuel (delegate toks) toks)))
      ]
    ]
  ]
]

demote-Explains :
    (redirect : Bool) (v : Verdict) → is_empty v.1 ≡ false → is_empty (demote redirect v).1 ≡ false
unfolding text is_empty
demote-Explains true (serve, reason) e = refl
demote-Explains _ v e = e

words-Explains :
    (fuel : ℕ) (sep : Sep) (redirect : Bool) (head : Text) (toks : List Token)
    → Explains (classify_words fuel sep redirect head toks)
unfolding classify_words text is_empty
words-Explains fuel sep redirect head toks = elim (Option-cases (classify_head fuel head toks)) [
  | inl r ↦ rw (r, classify_words) (ground arith)
  | inr (v, r) ↦
      let e = demote-Explains redirect v (subst Explains r (head-Explains fuel head toks)) in
      rw (r, classify_words) (ground arith)
]

toks-Explains :
    (fuel : ℕ) (sep : Sep) (redirect : Bool) (toks : List Token)
    → Explains (classify_toks fuel sep redirect toks)
unfolding classify_toks text is_empty
toks-Explains fuel sep redirect [] = refl
toks-Explains fuel sep redirect (t ∷ toks) =
    words-Explains fuel sep redirect (cmd_base t.text) (t ∷ toks)

lexed-Explains :
    (fuel : ℕ) (sep : Sep) (lexed : Option (List Token × Bool))
    → Explains (classify_lexed fuel sep lexed)
unfolding classify_lexed text is_empty
lexed-Explains fuel sep none = refl
lexed-Explains fuel sep (some (toks, redirect)) = toks-Explains fuel sep redirect (strip_env toks)

pub segment-Explains : (fuel : ℕ) (seg : Segment) → Explains (classify_segment fuel seg)
unfolding classify_segment
segment-Explains fuel seg = lexed-Explains fuel seg.sep (tokenize_segment seg.text)
