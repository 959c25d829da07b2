-- ===== src/Speculate/Known.antt =====
-- internal/hp/speculate.go: the commands that learnFromLog hands on, each with its slowest run.
use fasthack.Prelude.{
  ◌≡◌, refl, sym, ap, ◌∙◌, inl, inr, Option, none, some, List, [], ◌∷◌, Bool-cases, All, map,
  if◌then◌else◌,
}
use fasthack.Text.{Text, text_eq, is_empty}
use fasthack.Text.Laws.{text_eq_sound, text_eq_refl}
use fasthack.Dict.{Dict, get, put, values}
use fasthack.Dict.Laws.{get-put}
use fasthack.Dict.Counts.{IsDistinct, put-IsDistinct}
use fasthack.Sort.{All-sort_by}
use fasthack.Record.{Record}
use fasthack.Speculate.{CmdEvidence, Model}
use fasthack.Speculate.Learn.{
  is_demand, evidence_or_new, observe_cmd, note_demand, learn_record, learn_records, empty_model,
  spelled, cmd_before, summary, learn_from_log,
}
use fasthack.Speculate.Evidence.{max_in, slowest_of, by_cmd-note_attempt, learn_records_evidence}

-- What holds of each key and what stands under it holds of the entries.
module _ {V : Type 0} (P : Text → V → Type 0) where
  entries :
      (m : Dict V)
      → IsDistinct m
      → ((k : Text) (v : V) → get m k ≡ some v → P k v)
      → All (λ q. P q.0 q.1) m
  unfolding get
  entries [] d h = tt
  entries ((k, v) ∷ m) d h =
      (h k v (rw (text_eq_refl k) refl), entries m d.1 (λ j w g. h j w (later j w g)))
    where
      later :
          (j : Text) (w : V) → get m j ≡ some w → (if text_eq k j then some v else get m j) ≡ some w
      later j w g = elim (Bool-cases (text_eq k j)) [
        | inl e ↦ absurd (cc (d.0, rw (← text_eq_sound k j e) at g))
        | inr e ↦ rw e g
      ]

-- The keys are distinct, and each is the command that stands under it.
record IsFiledByCmd (by_cmd : Dict CmdEvidence) : Type 0 where
  pub distinct : IsDistinct by_cmd
  pub named : (k : Text) (e : CmdEvidence) → get by_cmd k ≡ some e → e.cmd_norm ≡ k

observed_name :
    (r : Record) (o : Option CmdEvidence)
    → ((e : CmdEvidence) → o ≡ some e → e.cmd_norm ≡ r.cmd_norm)
    → (observe_cmd r (evidence_or_new r.cmd_norm o)).cmd_norm ≡ r.cmd_norm
unfolding observe_cmd evidence_or_new
observed_name r none h = refl
observed_name r (some e) h = h e refl

put-IsFiledByCmd :
    (m : Dict CmdEvidence) (c : Text) (e : CmdEvidence)
    → e.cmd_norm ≡ c
    → IsFiledByCmd m
    → IsFiledByCmd (put m c e)
put-IsFiledByCmd m c e n i = record {
  distinct = put-IsDistinct m c e i.distinct;
  named = λ k d g. at k d (sym (get-put m c k e) ∙ g);
}
  where
    at :
        (k : Text) (d : CmdEvidence)
        → (if text_eq c k then some e else get m k) ≡ some d
        → d.cmd_norm ≡ k
    at k d g = elim (Bool-cases (text_eq c k)) [
      | inl same ↦ cc (rw same at g, n, text_eq_sound c k same)
      | inr other ↦ i.named k d (rw other at g)
    ]

learn_record-IsFiledByCmd :
    (r : Record) (m : Model) → IsFiledByCmd m.by_cmd → IsFiledByCmd (learn_record r m).by_cmd
unfolding learn_record note_demand
learn_record-IsFiledByCmd r m i = elim (Bool-cases (is_demand r)) [
  | inr e ↦ rw (e, by_cmd-note_attempt) i
  | inl e ↦
      rw (e, by_cmd-note_attempt)
        (put-IsFiledByCmd m.by_cmd r.cmd_norm _
          (observed_name r (get m.by_cmd r.cmd_norm) (λ d g. i.named r.cmd_norm d g)) i)
]

learn_records-IsFiledByCmd :
    (rs : List Record) (m : Model)
    → IsFiledByCmd m.by_cmd
    → IsFiledByCmd (learn_records rs m).by_cmd
unfolding learn_records
learn_records-IsFiledByCmd [] m i = i
learn_records-IsFiledByCmd (r ∷ rs) m i =
    learn_records-IsFiledByCmd rs (learn_record r m) (learn_record-IsFiledByCmd r m i)

-- The evidence says how long the slowest run of its command took, of those that the log shows.
abbrev pub IsSlowest : List Record → CmdEvidence → Type 0
IsSlowest rs e = e.max_ms ≡ slowest_of e.cmd_norm rs 0

spelled-values :
    (rs : List Record) (m : Dict CmdEvidence)
    → All (λ (q : Text × CmdEvidence). IsSlowest rs q.1) m
    → All (IsSlowest rs) (map spelled (values m))
unfolding values spelled
spelled-values rs [] h = tt
spelled-values rs ((k, e) ∷ m) (h, hs) = (same, spelled-values rs m hs)
  where
    same : IsSlowest rs (spelled e)
    same = elim (Bool-cases (is_empty e.cmd)) [ inl b ↦ rw b h | inr b ↦ rw b h ]

pub learn_from_log-IsSlowest : (rs : List Record) → All (IsSlowest rs) (learn_from_log rs).cmds
unfolding learn_from_log summary max_in get
learn_from_log-IsSlowest rs =
    let i =
      learn_records-IsFiledByCmd rs empty_model (record { distinct = tt; named = λ k e g. cc g }) in
    let m = (learn_records rs empty_model).by_cmd in
    All-sort_by (IsSlowest rs) cmd_before (map spelled (values m)) (
      spelled-values rs m (
        entries (λ k e. IsSlowest rs e) m i.distinct
          (λ k e g.
            ap max_in (sym g)
            ∙ (learn_records_evidence k rs).1
            ∙ ap (λ c. slowest_of c rs 0) (sym (i.named k e g)))))
