-- ===== src/Speculate/Sources.antt =====
-- internal/hp/speculate.go: whose records learnFromLog learns from.
use fasthack.Prelude.{
  ◌≡◌, refl, ap, ◌∙◌, inl, inr, Bool, false, not, ◌||◌, List, [], ◌∷◌, arith, if◌then◌else◌,
  Bool-cases,
}
use fasthack.Text.{text, text_eq, is_empty}
use fasthack.Record.{Record}
use fasthack.Speculate.{Model, speculator_agent}
use fasthack.Speculate.Learn.{
  note_attempt, is_attempt, is_demand, note_demand, learn_record, learn_records, empty_model,
  summary, learn_from_log,
}

-- A record that an agent of the fan-out left: neither the speculator nor the verifier.
unfoldable pub is_member : Record → Bool
is_member r =
    not (is_empty r.agent || text_eq r.agent speculator_agent || text_eq r.agent (text "verifier"))

unfoldable pub members : List Record → List Record
members [] = []
members (r ∷ rs) = let rest = members rs in if is_member r then r ∷ rest else rest

-- The model but for the keys that were tried.
unfoldable forget : Model → Model
forget m = record m { attempted = [] }

forget-note_attempt : (r : Record) (m : Model) → forget (note_attempt r m) ≡ forget m
unfolding forget note_attempt
forget-note_attempt r m = elim (Bool-cases (is_attempt r)) [ inl e ↦ rw e refl | inr e ↦ rw e refl ]

forget-note_demand : (r : Record) (m : Model) → forget (note_demand r m) ≡ note_demand r (forget m)
unfolding forget note_demand
forget-note_demand r m = refl

forget-learn_record :
    (r : Record) (m : Model)
    → forget (learn_record r m) ≡ (if is_demand r then note_demand r (forget m) else forget m)
unfolding learn_record
forget-learn_record r m = elim (Bool-cases (is_demand r)) [
  | inl e ↦
      rw e (forget-note_demand r (note_attempt r m) ∙ ap (note_demand r) (forget-note_attempt r m))
  | inr e ↦ rw e (forget-note_attempt r m)
]

demand_member : (r : Record) → is_member r ≡ false → is_demand r ≡ false
unfolding is_member is_demand
demand_member r h = ground arith

forget-learn_records :
    (rs : List Record) (m n : Model)
    → forget m ≡ forget n
    → forget (learn_records rs m) ≡ forget (learn_records (members rs) n)
unfolding learn_records members
forget-learn_records [] m n h = h
forget-learn_records (r ∷ rs) m n h = elim (Bool-cases (is_member r)) [
  | inl e ↦ rw e (
      forget-learn_records rs (learn_record r m) (learn_record r n)
        (rw (forget-learn_record, forget-learn_record, h) refl))
  | inr e ↦ rw e (
      forget-learn_records rs (learn_record r m) n (
        forget-learn_record r m
        ∙ ap (λ (b : Bool). if b then note_demand r (forget m) else forget m) (demand_member r e)
        ∙ h))
]

summary-forget :
    (m : Model)
    → ((summary (forget m)).cmds ≡ (summary m).cmds)
      × ((summary (forget m)).sites ≡ (summary m).sites)
      × ((summary (forget m)).trees ≡ (summary m).trees)
unfolding summary forget
summary-forget m = (refl, refl, refl)

same_summary :
    (m n : Model)
    → forget m ≡ forget n
    → ((summary m).cmds ≡ (summary n).cmds)
      × ((summary m).sites ≡ (summary n).sites)
      × ((summary m).trees ≡ (summary n).trees)
same_summary m n h =
    let (c, s, t) = summary-forget m in
    let (c', s', t') = summary-forget n in
    (
      cc (c, c', ap (λ (x : Model). (summary x).cmds) h),
      cc (s, s', ap (λ (x : Model). (summary x).sites) h),
      cc (t, t', ap (λ (x : Model). (summary x).trees) h),
    )

-- The speculator's own records, the verifier's, and those without an agent teach nothing: the
-- commands, the sites and the number of trees are those of the log without them.
pub learn_from_log-members :
    (rs : List Record)
    → ((learn_from_log rs).cmds ≡ (learn_from_log (members rs)).cmds)
      × ((learn_from_log rs).sites ≡ (learn_from_log (members rs)).sites)
      × ((learn_from_log rs).trees ≡ (learn_from_log (members rs)).trees)
unfolding learn_from_log
learn_from_log-members rs =
    same_summary (learn_records rs empty_model) (learn_records (members rs) empty_model)
      (forget-learn_records rs empty_model empty_model refl)
