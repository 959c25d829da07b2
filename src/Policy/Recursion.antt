-- ===== src/Policy/Recursion.antt =====
-- internal/hp/policy.go: the recursion of `classifyHead`.
use fasthack.Prelude.{
  ℕ, zero, suc, ◌≡◌, refl, ◌↔◌, inl, inr, true, false, ◌&&◌, none, some, List, Bool-cases,
  Option-cases, and-eq-true,
}
use fasthack.Text.{Text, text, text_eq, in_set, is_empty}
use fasthack.Text.Laws.{in_set-Any}
use fasthack.Policy.Tables.{install_heads, mutation_heads, metadata_heads}
use fasthack.Policy.Syntax.{Token}
use fasthack.Policy.Heads.{
  Verdict, classify_early, classify_late, delegate, install_verdict, through, classify_head,
}

abbrev pub EarlyNone : List Token → Text → Type 0
EarlyNone toks head = (classify_early head toks ≡ none) × (is_empty head ≡ false)

-- An install head is none of the heads that are decided before it.
pub install-early :
    (head : Text) (toks : List Token) → in_set install_heads head ≡ true → EarlyNone toks head
unfolding install_heads classify_early is_empty text_eq text in_set mutation_heads metadata_heads
install-early head toks h = elim (in_set-Any install_heads head h) [
  | inl e ↦ rw e (refl, refl)
  | inr (inl e) ↦ rw e (refl, refl)
  | inr (inr (inl e)) ↦ rw e (refl, refl)
  | inr (inr (inr (inl e))) ↦ rw e (refl, refl)
  | inr (inr (inr (inr (inl e)))) ↦ rw e (refl, refl)
  | inr (inr (inr (inr (inr e)))) ↦ absurd e
]

-- A head that is decided without a call.
head_early :
    (fuel : ℕ) (head : Text) (toks : List Token) (v : Verdict)
    → classify_early head toks ≡ some v
    → classify_head (suc fuel) head toks ≡ some v
unfolding classify_head
head_early fuel head toks v e = rw (e, classify_head)

head_late :
    (fuel : ℕ) (head : Text) (toks : List Token)
    → classify_early head toks ≡ none
    → in_set install_heads head ≡ false
    → classify_head (suc fuel) head toks ≡ some (classify_late head)
unfolding classify_head
head_late fuel head toks e i = rw (e, i, classify_head)

head_install :
    (fuel : ℕ) (head : Text) (toks : List Token)
    → in_set install_heads head ≡ true
    → is_empty (delegate toks) ≡ true
    → classify_head (suc fuel) head toks ≡ some install_verdict
unfolding classify_head
head_install fuel head toks i d = rw ((install-early head toks i).0, i, d, classify_head)

-- An install head whose inner command is an install head too: the next call has the same tokens,
-- so the same inner command, and so on.
pub classify_head-endless :
    (fuel : ℕ) (head : Text) (toks : List Token)
    → in_set install_heads head ≡ true
    → in_set install_heads (delegate toks) ≡ true
    → classify_head fuel head toks ≡ none
unfolding classify_head
classify_head-endless zero head toks i d = refl
classify_head-endless (suc fuel) head toks i d = rw (
  (install-early head toks i).0,
  i,
  (install-early (delegate toks) toks d).1,
  classify_head-endless fuel (delegate toks) toks d d,
  classify_head,
)

head_deeper :
    (fuel : ℕ) (head : Text) (toks : List Token) (v : Verdict)
    → in_set install_heads head ≡ true
    → is_empty (delegate toks) ≡ false
    → classify_head fuel (delegate toks) toks ≡ some v
    → classify_head (suc fuel) head toks ≡ some (through head toks v)
unfolding classify_head
head_deeper fuel head toks v i d r = rw ((install-early head toks i).0, i, d, r, classify_head)

-- An answer that one more call, or a thousand more, do not change.
abbrev pub Settles : Text → List Token → Type 0
Settles head toks = (v : Verdict) × ((fuel : ℕ) → classify_head (suc (suc fuel)) head toks ≡ some v)

-- Any head that is not an install head is done at its first call.
head_plain :
    (head : Text) (toks : List Token)
    → in_set install_heads head ≡ false
    → (v : Verdict) × ((fuel : ℕ) → classify_head (suc fuel) head toks ≡ some v)
head_plain head toks i = elim (Option-cases (classify_early head toks)) [
  | inl e ↦ (classify_late head, λ fuel. head_late fuel head toks e i)
  | inr (v, e) ↦ (v, λ fuel. head_early fuel head toks v e)
]

-- Two calls are enough where one of the two heads is no install head.
pub classify_head-Settles :
    (head : Text) (toks : List Token)
    → (in_set install_heads head && in_set install_heads (delegate toks)) ≡ false
    → Settles head toks
classify_head-Settles head toks h = elim (Bool-cases (in_set install_heads head)) [
  | inr i ↦ let (v, r) = head_plain head toks i in (v, λ fuel. r (suc fuel))
  | inl i ↦ elim (Bool-cases (is_empty (delegate toks))) [
    | inl d ↦ (install_verdict, λ fuel. head_install (suc fuel) head toks i d)
    | inr d ↦
        let (v, r) = head_plain (delegate toks) toks (rw i at h) in
        (through head toks v, λ fuel. head_deeper (suc fuel) head toks v i d (r fuel))
  ]
]

-- `classifyHead` ends exactly where the head or its inner head is no install head: then it has one
-- answer from two calls on, and otherwise no number of calls gives one.
pub classify_head-Settles_iff :
    (head : Text) (toks : List Token)
    → Settles head toks
      ↔ ((in_set install_heads head && in_set install_heads (delegate toks)) ≡ false)
classify_head-Settles_iff head toks = (not_endless head toks, classify_head-Settles head toks)
  where
    not_endless :
        (head : Text) (toks : List Token)
        → Settles head toks
        → (in_set install_heads head && in_set install_heads (delegate toks)) ≡ false
    not_endless head toks (v, r) =
        elim (Bool-cases (in_set install_heads head && in_set install_heads (delegate toks))) [
          | inr e ↦ e
          | inl e ↦
              let (i, d) =
                and-eq-true (in_set install_heads head) (in_set install_heads (delegate toks)) e in
              cc (classify_head-endless 2 head toks i d, r 0)
        ]
