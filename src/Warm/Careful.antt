-- ===== src/Warm/Careful.antt =====
-- cmd/hindsight/warm.go: what warmOne runs.
use fasthack.Prelude.{
  ℕ, ◌+◌, ◌≡◌, ◌≢◌, refl, subst, inl, inr, Bool, true, false, not, Option, none, some, [], ◌++◌,
  arith, if◌then◌else◌, Bool-cases, Option-cases,
}
use fasthack.Text.{Text, text, text_eq}
use fasthack.Text.Laws.{text_eq_sound, text_eq_refl}
use fasthack.Dict.{get}
use fasthack.Dict.Laws.{get-put}
use fasthack.Policy.Syntax.{split_segments, has_command_substitution}
use fasthack.Policy.Heads.{passthrough, record_only, serve, Verdict}
use fasthack.Policy.Classify.{classify}
use fasthack.Policy.Safe.{EachIsSafe, classify-EachIsSafe}
use fasthack.Key.{State, normalize_command, key}
use fasthack.Speculate.Suggest.{Suggestion}
use fasthack.Warm.{
  Scratch, checkout, dirty, Warmer, Hashed, hashed, unhashed, Attempt, Tools, Job, count_reason,
  refuse, observe_materialize, Warming, declined, job_of, execute, cwd_or_dot, on_key, on_hashed,
  on_worktree, on_checkout, is_too_dear, on_policy, on_classified, warm_one,
}

-- A job that the warmer may run: the command is safe and is the suggested one, the worktree holds the
-- suggested tree in the suggested environment, completely measured, and the job's key is the suggested
-- one and the one that a hook would ask for there.
pub record IsCareful (t : Tools) (sug : Suggestion) (job : Job) : Type 0 where
  pub same : job.cmd ≡ sug.cmd
  pub plain : has_command_substitution job.cmd ≡ false
  pub safe : EachIsSafe (split_segments job.cmd)
  pub tree : job.state.tree ≡ sug.tree
  pub complete : job.state.env_complete ≡ true
  pub env : job.state.env_fp ≡ sug.env_fp
  pub suggested : job.key ≡ sug.key
  pub asked : job.key ≡ key t.digest job.state job.cwd_rel (normalize_command job.cmd)

-- What comes of a suggestion: it is refused and nothing runs, or a job that may run runs, and the
-- worktree is known to hold no tree.
abbrev pub IsOutcome : Tools → Suggestion → ℕ → Warming → Type 0
IsOutcome t sug n (w, sc, none) = (get w.refused sug.key ≢ none) × (w.ran ≡ n)
IsOutcome t sug n (w, sc, some job) = IsCareful t sug job × (sc.current ≡ []) × (w.ran ≡ n + 1)

ran-observe : (ms : ℕ) (w : Warmer) → (observe_materialize ms w).ran ≡ w.ran
unfolding observe_materialize
ran-observe ms w = ground arith

module _ (t : Tools) (sug : Suggestion) where
  declined-IsOutcome :
      (why : Text) (w : Warmer) (sc : Scratch) → IsOutcome t sug w.ran (declined sug why w sc)
  unfolding declined refuse count_reason
  declined-IsOutcome why w sc = ((rw (get-put, text_eq_refl sug.key) (λ h. cc h)), refl)

  module _ (a : Attempt) (reason : Text)
      (safe : (has_command_substitution sug.cmd ≡ false)
        × EachIsSafe (split_segments sug.cmd)) where
    on_key-IsOutcome :
        (st : State) (w : Warmer) (sc : Scratch)
        → st.tree ≡ sug.tree
        → st.env_complete ≡ true
        → st.env_fp ≡ sug.env_fp
        → IsOutcome t sug w.ran (
            on_key a sug reason st
              (key t.digest st (cwd_or_dot sug.cwd_rel) (normalize_command sug.cmd))
              w
              sc)
    unfolding on_key execute count_reason dirty job_of
    on_key-IsOutcome st w sc tree complete env = elim (Bool-cases (text_eq k sug.key)) [
      | inr e ↦ rw e (declined-IsOutcome _ w sc)
      | inl e ↦ rw e (by_dir a.has_dir (text_eq_sound k sug.key e))
    ]
      where
        k : Text
        k = key t.digest st (cwd_or_dot sug.cwd_rel) (normalize_command sug.cmd)

        by_dir :
            (b : Bool)
            → k ≡ sug.key
            → IsOutcome t sug w.ran (
                if not b
                then declined sug
                    (text "no " ++ cwd_or_dot sug.cwd_rel ++ text " in this tree")
                    w
                    sc
                else execute a (job_of st k (cwd_or_dot sug.cwd_rel) sug reason) w sc)
        by_dir false e = declined-IsOutcome _ w sc
        by_dir true e = (
          record {
            same = refl;
            plain = safe.0;
            safe = safe.1;
            tree = tree;
            complete = complete;
            env = env;
            suggested = e;
            asked = refl;
          },
          refl,
          refl,
        )

    on_env-IsOutcome :
        (st : State) (w : Warmer) (sc : Scratch) (why1 why2 : Text)
        → st.tree ≡ sug.tree
        → (b : Bool) → st.env_complete ≡ b
        → IsOutcome t sug w.ran (
            if not b
            then declined sug why1 w sc
            else if not (text_eq st.env_fp sug.env_fp)
            then declined sug why2 w sc
            else on_key a sug reason st
                (key t.digest st (cwd_or_dot sug.cwd_rel) (normalize_command sug.cmd))
                w
                sc)
    on_env-IsOutcome st w sc why1 why2 tree false c = declined-IsOutcome why1 w sc
    on_env-IsOutcome st w sc why1 why2 tree true c =
        elim (Bool-cases (text_eq st.env_fp sug.env_fp)) [
          | inr e ↦ rw e (declined-IsOutcome why2 w sc)
          | inl e ↦ rw e (on_key-IsOutcome st w sc tree c (text_eq_sound st.env_fp sug.env_fp e))
        ]

    on_hashed-IsOutcome :
        (h : Hashed) (w : Warmer) (sc : Scratch)
        → IsOutcome t sug w.ran (on_hashed t a sug reason h w sc)
    unfolding on_hashed
    on_hashed-IsOutcome (unhashed e) w sc = declined-IsOutcome _ w sc
    on_hashed-IsOutcome (hashed st) w sc = elim (Bool-cases (text_eq st.tree sug.tree)) [
      | inr e ↦ rw e (declined-IsOutcome _ w sc)
      | inl e ↦
          rw e
            (on_env-IsOutcome st w sc _ _ (text_eq_sound st.tree sug.tree e) st.env_complete refl)
    ]

    on_worktree-IsOutcome :
        (o : Option Text) (w : Warmer) (sc : Scratch)
        → IsOutcome t sug w.ran (on_worktree t a sug reason o w sc)
    unfolding on_worktree
    on_worktree-IsOutcome (some e) w sc = declined-IsOutcome _ w sc
    on_worktree-IsOutcome none w sc = on_hashed-IsOutcome a.state w sc

    on_checkout-IsOutcome :
        (p : Option Text × Scratch) (w : Warmer)
        → IsOutcome t sug w.ran (on_checkout t a sug reason p w)
    unfolding on_checkout
    on_checkout-IsOutcome (some e, sc) w = declined-IsOutcome _ w sc
    on_checkout-IsOutcome (none, sc) w =
        subst
          (λ n.
            IsOutcome t sug n
              (on_worktree t a sug reason a.no_worktree (observe_materialize a.checkout_ms w) sc))
          (ran-observe a.checkout_ms w)
          (on_worktree-IsOutcome a.no_worktree (observe_materialize a.checkout_ms w) sc)

  on_policy-IsOutcome :
      (a : Attempt) (v : Verdict) (w : Warmer) (sc : Scratch)
      → classify t.fuel sug.cmd ≡ some v
      → IsOutcome t sug w.ran (on_policy t a sug v w sc)
  unfolding on_policy
  on_policy-IsOutcome a (passthrough, reason) w sc c = declined-IsOutcome _ w sc
  on_policy-IsOutcome a (record_only, reason) w sc c = declined-IsOutcome _ w sc
  on_policy-IsOutcome a (serve, reason) w sc c = elim (Bool-cases (is_too_dear w sug)) [
    | inl e ↦ rw e (declined-IsOutcome _ w sc)
    | inr e ↦ rw e (
        on_checkout-IsOutcome a reason (classify-EachIsSafe t.fuel sug.cmd reason c)
          (checkout a.git sug.tree sc) w)
  ]

-- Where the classifier returns, so does the warmer. It refuses the suggestion, remembers that, and
-- runs nothing; or it runs the suggested command, which is safe, once, with the worktree at the
-- suggested tree and in the suggested environment, under the suggested key, which is the one that a
-- hook would ask for there, and no longer takes the worktree to hold a tree.
pub warm_one-IsOutcome :
    (t : Tools) (a : Attempt) (sug : Suggestion) (w : Warmer) (sc : Scratch)
    → classify t.fuel sug.cmd ≢ none
    → (out : Warming) × (warm_one t a sug w sc ≡ some out) × IsOutcome t sug w.ran out
unfolding warm_one on_classified
warm_one-IsOutcome t a sug w sc h = elim (Option-cases (classify t.fuel sug.cmd)) [
  | inl n ↦ absurd (h n)
  | inr (v, c) ↦ (on_policy t a sug v w sc, rw c refl, on_policy-IsOutcome t sug a v w sc c)
]
