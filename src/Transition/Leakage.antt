-- ===== src/Transition/Leakage.antt =====
-- internal/hp/transition.go: the leakage rule, and the labels of a row.
use fasthack.Prelude.{◌≡◌, ◌↔◌, refl, subst, inl, inr, true, false, not, some, arith, Bool-cases}
use fasthack.Text.{Text, text_eq, is_empty}
use fasthack.Text.Laws.{text_eq_sound, text_eq_complete}
use fasthack.Record.{Record, decision_miss}
use fasthack.Transition.{
  Transition, Converted, converted, excluded, TransitionFilter, filter_all, filter_mutating_only,
  filter_non_mutating_only, row, executed, transition_from, admits, filtered, line_of,
}

-- A record of an execution with the states before and after it.
pub record IsExecution (r : Record) : Type 0 where
  pub missed : r.decision ≡ decision_miss
  pub before : (is_empty r.tree_before ≡ false) × (is_empty r.env_fp_before ≡ false)
  pub after : (is_empty r.tree_after ≡ false) × (is_empty r.env_fp_after ≡ false)

-- Neither the tree nor the environment moved.
abbrev pub IsUnmoved : Record → Type 0
IsUnmoved r = (r.tree_after ≡ r.tree_before) × (r.env_fp_after ≡ r.env_fp_before)

mutated-IsUnmoved : (r : Record) → (row r).mutated ≡ false → IsUnmoved r
unfolding row
mutated-IsUnmoved r h = (
  text_eq_sound r.tree_after r.tree_before (ground arith),
  text_eq_sound r.env_fp_after r.env_fp_before (ground arith),
)

row-IsUnmoved : (r : Record) → IsUnmoved r → (row r).mutated ≡ false
unfolding row
row-IsUnmoved r h = ground (
  arith,
  text_eq_complete r.tree_after r.tree_before h.0,
  text_eq_complete r.env_fp_after r.env_fp_before h.1,
)

not-text_eq_iff : (s t : Text) → (not (text_eq s t) ≡ false) ↔ (s ≡ t)
not-text_eq_iff s t =
    (λ h. text_eq_sound s t (ground arith), λ h. ground (arith, text_eq_complete s t h))

-- What a row says is what the record says, its labels included.
pub record IsRowOf (r : Record) (t : Transition) : Type 0 where
  pub execution : IsExecution r
  pub before : (t.tree_before ≡ r.tree_before) × (t.env_fp_before ≡ r.env_fp_before)
  pub after : (t.tree_after ≡ r.tree_after) × (t.env_fp_after ≡ r.env_fp_after)
  pub action :
      (t.cmd ≡ r.cmd)
      × (t.cmd_norm ≡ r.cmd_norm)
      × (t.cwd_rel ≡ r.cwd_rel)
      × (t.agent ≡ r.agent)
      × (t.ts ≡ r.ts)
  pub response :
      (t.exit_code ≡ r.exit_code)
      × (t.duration_ms ≡ r.duration_ms)
      × (t.stdout_blob ≡ r.stdout_blob)
      × (t.stderr_blob ≡ r.stderr_blob)
  pub verdict :
      (t.servable ≡ r.servable)
      × (t.read_set ≡ r.read_set)
      × (t.policy ≡ r.policy)
      × (t.reason ≡ r.reason)
      × (t.key ≡ r.key)
  pub label : (t.mutated ≡ false) ↔ IsUnmoved r
  pub tree_label : (t.tree_mutated ≡ false) ↔ (r.tree_after ≡ r.tree_before)
  pub env_label : (t.env_mutated ≡ false) ↔ (r.env_fp_after ≡ r.env_fp_before)

transition_from-IsRowOf :
    (r : Record) (t : Transition) → transition_from r ≡ converted t → IsRowOf r t
unfolding transition_from executed
transition_from-IsRowOf r t h = elim (Bool-cases (text_eq r.decision decision_miss)) [
  | inr m ↦ ground arith
  | inl m ↦
      let e : row r ≡ t = ground arith in
      subst (IsRowOf r) e (record {
        execution = record {
          missed = text_eq_sound r.decision decision_miss m;
          before = ground arith;
          after = ground arith;
        };
        before = unfold row in (refl, refl);
        after = unfold row in (refl, refl);
        action = unfold row in (refl, refl, refl, refl, refl);
        response = unfold row in (refl, refl, refl, refl);
        verdict = unfold row in (refl, refl, refl, refl, refl);
        label = (mutated-IsUnmoved r, row-IsUnmoved r);
        tree_label = unfold row in not-text_eq_iff r.tree_after r.tree_before;
        env_label = unfold row in not-text_eq_iff r.env_fp_after r.env_fp_before;
      })
]

execution-converted : (r : Record) → IsExecution r → transition_from r ≡ converted (row r)
unfolding transition_from executed
execution-converted r x =
    ground (arith, text_eq_complete r.decision decision_miss x.missed, x.before, x.after)

-- A record becomes a transition exactly if its decision is MISS and the tree and the environment were
-- observed before it and after it.
pub transition_from-IsExecution_iff :
    (r : Record) → ((t : Transition) × (transition_from r ≡ converted t)) ↔ IsExecution r
transition_from-IsExecution_iff r =
    (λ h. (transition_from-IsRowOf r h.0 h.1).execution, λ x. (row r, execution-converted r x))

-- The filter lets the row through.
abbrev pub IsAdmitted : TransitionFilter → Transition → Type 0
IsAdmitted filter_all t = Unit
IsAdmitted filter_mutating_only t = t.mutated ≡ true
IsAdmitted filter_non_mutating_only t = t.mutated ≡ false

admits-IsAdmitted :
    (f : TransitionFilter) (t u : Transition) → admits f t ≡ converted u → (t ≡ u) × IsAdmitted f t
unfolding admits
admits-IsAdmitted filter_all t u h = (ground arith, tt)
admits-IsAdmitted filter_mutating_only t u h = (ground arith, ground arith)
admits-IsAdmitted filter_non_mutating_only t u h = (ground arith, ground arith)

-- A row that an export lists for a record of the log is an execution's: it has the record's trees
-- and environments before and after, its command, agent and time, its exit code, duration and
-- outputs, and its verdict, read set and key. Each of its three labels says that nothing moved
-- exactly if the tree did not, the environment did not, or neither did, and the row is of the kind
-- that the filter asks for.
pub line_of-IsRowOf :
    (f : TransitionFilter) (r : Record) (t : Transition)
    → line_of f (some r) ≡ converted t
    → IsRowOf r t × IsAdmitted f t
line_of-IsRowOf f r t h = of_record (transition_from r) refl h
  where
    of_record :
        (c : Converted)
        → transition_from r ≡ c
        → filtered f c ≡ converted t
        → IsRowOf r t × IsAdmitted f t
    of_record (excluded why) e g = cc g
    of_record (converted u) e g =
        let (same, kind) = admits-IsAdmitted f u t g in
        (subst (IsRowOf r) same (transition_from-IsRowOf r u e), subst (IsAdmitted f) same kind)
