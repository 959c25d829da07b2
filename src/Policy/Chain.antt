-- ===== src/Policy/Chain.antt =====
-- internal/hp/policy.go: the chain rule of `Classify`.
use fasthack.Prelude.{
  ℕ, ◌+◌, ◌≤◌, ◌<◌, ◌≡◌, refl, ◌⊎◌, inl, inr, true, false, Option, none, some, List, [], ◌∷◌, arith,
  if◌then◌else◌, subst, Bool-cases, Option-cases, length, All, Any, sym, ◌∙◌,
}
use mathlib.Core.Option.{some-injective}
use fasthack.Text.{Text, is_empty, is_blank}
use fasthack.Policy.Syntax.{Segment, split_segments, has_command_substitution}
use fasthack.Policy.Words.{is_directory_change}
use fasthack.Policy.Heads.{Policy, passthrough, serve, rank, Verdict}
use fasthack.Policy.Classify.{
  classify_segment, Tally, count, classify_loop, conclude, tally_start, classify,
}
use fasthack.Policy.Reasons.{Explains, segment-Explains}

-- The verdicts of the segments that are neither blank nor a plain `cd`, in their order.
unfoldable pub verdicts : ℕ → List Segment → Option (List Verdict)
verdicts fuel [] = some []
verdicts fuel (seg ∷ segs) =
    let later = verdicts fuel segs in
    if is_blank seg.text
    then later
    else if is_directory_change seg
    then later
    else elim (classify_segment fuel seg) [
      | none ↦ none
      | some v ↦ elim later [ none ↦ none | some vs ↦ some (v ∷ vs) ]
    ]

-- The reason is empty just as long as nothing has been counted.
abbrev Marked : Tally → Type 0
Marked t =
    (is_empty t.reason ≡ true → t.segments ≡ 0) × (is_empty t.reason ≡ false → 0 < t.segments)

-- What the loop makes of a tally by counting some verdicts.
record Counted (t : Tally) (vs : List Verdict) (t' : Tally) : Type 0 where
  marked : Marked t'
  number : t'.segments ≡ t.segments + length vs
  below : All (λ v. rank t'.worst ≤ rank v.0) vs
  falls : 0 < t.segments → rank t'.worst ≤ rank t.worst
  attained : Any (λ v. v.0 ≡ t'.worst) vs ⊎ ((t'.worst ≡ t.worst) × (0 < t.segments ⊎ (vs ≡ [])))

Counted-nil : (t : Tally) → Marked t → Counted t [] t
Counted-nil t m = record {
  marked = m;
  number = omega arith;
  below = tt;
  falls = λ _. omega arith;
  attained = inr (refl, inr refl);
}

count_step :
    (t : Tally) (v : Verdict)
    → Marked t
    → is_empty v.1 ≡ false
    → Marked (count t v)
      × ((count t v).segments ≡ t.segments + 1)
      × (rank (count t v).worst ≤ rank v.0)
      × (0 < t.segments → rank (count t v).worst ≤ rank t.worst)
      × (((count t v).worst ≡ v.0) ⊎ ((count t v).worst ≡ t.worst) × (0 < t.segments))
unfolding count
count_step t (p, r) m e = ground arith

cons_attained :
    (t : Tally) (v : Verdict) (vs : List Verdict) (t' : Tally)
    → ((count t v).worst ≡ v.0) ⊎ ((count t v).worst ≡ t.worst) × (0 < t.segments)
    → Any (λ w. w.0 ≡ t'.worst) vs
      ⊎ ((t'.worst ≡ (count t v).worst) × (0 < (count t v).segments ⊎ (vs ≡ [])))
    → Any (λ w. w.0 ≡ t'.worst) (v ∷ vs) ⊎ ((t'.worst ≡ t.worst) × (0 < t.segments ⊎ (v ∷ vs ≡ [])))
cons_attained t v vs t' which (inl any) = inl (inr any)
cons_attained t v vs t' (inl e) (inr (e', _)) = inl (inl (sym e ∙ sym e'))
cons_attained t v vs t' (inr (e, h)) (inr (e', _)) = inr (e' ∙ e, inl h)

Counted-cons :
    (t : Tally) (v : Verdict) (vs : List Verdict) (t' : Tally)
    → Marked t
    → is_empty v.1 ≡ false
    → Counted (count t v) vs t'
    → Counted t (v ∷ vs) t'
Counted-cons t v vs t' m e c =
    let (_, n, low, down, which) = count_step t v m e in
    record {
      marked = c.marked;
      number = omega arith;
      below = (omega arith, c.below);
      falls = λ h. omega arith;
      attained = cons_attained t v vs t' which c.attained;
    }

Counted-moved :
    (t : Tally) (vs : List Verdict) (t' : Tally)
    → Counted (record t { nav_only = t.nav_only + 1 }) vs t'
    → Counted t vs t'
Counted-moved t vs t' c = record {
  marked = c.marked;
  number = c.number;
  below = c.below;
  falls = c.falls;
  attained = c.attained;
}

module _ (fuel : ℕ) where
  loop-Counted :
      (t : Tally) (segs : List Segment) (t' : Tally)
      → Marked t
      → classify_loop fuel t segs ≡ some t'
      → (vs : List Verdict) × (verdicts fuel segs ≡ some vs) × Counted t vs t'
  unfolding classify_loop verdicts
  loop-Counted t [] t' m r =
      ([], refl, subst (Counted t []) (some-injective t t' r) (Counted-nil t m))
  loop-Counted t (seg ∷ segs) t' m r = elim (Bool-cases (is_blank seg.text)) [
    | inl b ↦ rw b (loop-Counted t segs t' m (rw b at r))
    | inr b ↦ elim (Bool-cases (is_directory_change seg)) [
      | inl c ↦
          let (vs, e, counted) =
            loop-Counted (record t { nav_only = t.nav_only + 1 }) segs t' m (rw (b, c) at r) in
          rw (b, c) (vs, e, Counted-moved t vs t' counted)
      | inr c ↦ elim (Option-cases (classify_segment fuel seg)) [
        | inl n ↦ absurd (cc (rw (b, c, n) at r))
        | inr (v, n) ↦
            let reason = subst Explains n (segment-Explains fuel seg) in
            let (vs, e, counted) =
              loop-Counted (count t v) segs t' (count_step t v m reason).0 (rw (b, c, n) at r) in
            (v ∷ vs, rw (b, c, n, e), Counted-cons t v vs t' m reason counted)
      ]
    ]
  ]

Marked-start : Marked tally_start
unfolding is_empty
Marked-start = ground arith

-- The policy is that of some verdict and no verdict is stricter, or nothing was counted.
abbrev pub IsStrictest : Policy → List Verdict → Type 0
IsStrictest p vs =
    (All (λ v. rank p ≤ rank v.0) vs × Any (λ v. v.0 ≡ p) vs) ⊎ ((vs ≡ []) × (p ≡ passthrough))

conclude_worst : (t : Tally) → 0 < t.segments → (conclude t).0 ≡ t.worst
unfolding conclude
conclude_worst t h = ground arith

conclude-IsStrictest :
    (vs : List Verdict) (t : Tally) → Counted tally_start vs t → IsStrictest (conclude t).0 vs
conclude-IsStrictest [] t c = inr (refl, unfold conclude in ground arith)
conclude-IsStrictest (v ∷ vs) t c =
    subst (λ p. IsStrictest p (v ∷ vs)) (sym (conclude_worst t (omega arith)))
      (inl (c.below, attained c.attained))
  where
    attained :
        Any (λ w. w.0 ≡ t.worst) (v ∷ vs) ⊎ ((t.worst ≡ serve) × (0 < 0 ⊎ (v ∷ vs ≡ [])))
        → Any (λ w. w.0 ≡ t.worst) (v ∷ vs)
    attained (inl any) = any
    attained (inr (_, inl h)) = absurd (omega arith)
    attained (inr (_, inr e)) = cc e

-- A command that is not blank and has no command substitution gets the strictest policy among its
-- counted segments, and PASSTHROUGH if it has none.
pub classify-IsStrictest :
    (fuel : ℕ) (cmd : Text) (v : Verdict)
    → is_blank cmd ≡ false
    → has_command_substitution cmd ≡ false
    → classify fuel cmd ≡ some v
    → (vs : List Verdict) × (verdicts fuel (split_segments cmd) ≡ some vs) × IsStrictest v.0 vs
unfolding classify
classify-IsStrictest fuel cmd v b s r =
    elim (Option-cases (classify_loop fuel tally_start (split_segments cmd))) [
      | inl n ↦ absurd (cc (rw (b, s, n) at r))
      | inr (t, n) ↦
          let (vs, e, c) = loop-Counted fuel tally_start (split_segments cmd) t Marked-start n in
          (
            vs,
            e,
            subst (λ (w : Verdict). IsStrictest w.0 vs)
                (some-injective (conclude t) v (rw (b, s, n) at r)) (conclude-IsStrictest vs t c),
          )
    ]

All-serve : (vs : List Verdict) → All (λ v. 2 ≤ rank v.0) vs → All (λ v. v.0 ≡ serve) vs
All-serve [] h = tt
All-serve (v ∷ vs) h = (ground arith, All-serve vs h.1)

-- The counted segments of a command that is SERVE.
abbrev pub AllServe : Option (List Verdict) → Type 0
AllServe none = ⊥
AllServe (some []) = ⊥
AllServe (some (v ∷ vs)) = All (λ w. w.0 ≡ serve) (v ∷ vs)

IsStrictest-AllServe : (vs : List Verdict) → IsStrictest serve vs → AllServe (some vs)
IsStrictest-AllServe [] (inl (low, any)) = absurd any
IsStrictest-AllServe [] (inr (e, p)) = cc p
IsStrictest-AllServe (v ∷ vs) (inl (low, any)) = All-serve (v ∷ vs) low
IsStrictest-AllServe (v ∷ vs) (inr (e, p)) = cc p

-- SERVE means that every counted segment is SERVE, that there is one, and that nothing in the
-- command is substituted.
pub classify-AllServe :
    (fuel : ℕ) (cmd reason : Text)
    → classify fuel cmd ≡ some (serve, reason)
    → (has_command_substitution cmd ≡ false) × AllServe (verdicts fuel (split_segments cmd))
unfolding classify
classify-AllServe fuel cmd reason r = elim (Bool-cases (is_blank cmd)) [
  | inl b ↦ absurd (cc (rw b at r))
  | inr b ↦ elim (Bool-cases (has_command_substitution cmd)) [
    | inl s ↦ absurd (cc (rw (b, s) at r))
    | inr s ↦
        let (vs, e, strictest) = classify-IsStrictest fuel cmd (serve, reason) b s r in
        (s, rw e (IsStrictest-AllServe vs strictest))
  ]
]
