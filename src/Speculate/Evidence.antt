-- ===== src/Speculate/Evidence.antt =====
-- internal/hp/speculate.go: what learnFromLog counts for a command.
use fasthack.Prelude.{
  ℕ, ◌+◌, ◌≡◌, refl, inl, inr, Bool, ◌&&◌, Option, none, some, List, [], ◌∷◌, arith, ltb,
  if◌then◌else◌, Bool-cases,
}
use fasthack.Text.{Text, text_eq}
use fasthack.Text.Laws.{text_eq_sound}
use fasthack.Dict.{get}
use fasthack.Dict.Laws.{get-put}
use fasthack.Record.{Record}
use fasthack.Speculate.{CmdEvidence, Model}
use fasthack.Speculate.Learn.{
  note_attempt, is_demand, evidence_or_new, observe_cmd, note_demand, learn_record, learn_records,
  empty_model,
}

-- Whether a record is a demand of the command.
unfoldable pub demands_cmd : Text → Record → Bool
demands_cmd cmd_norm r = is_demand r && text_eq r.cmd_norm cmd_norm

-- How often the log demands the command, beyond `n`.
unfoldable pub demands_of : Text → List Record → ℕ → ℕ
demands_of cmd_norm [] n = n
demands_of cmd_norm (r ∷ rs) n =
    demands_of cmd_norm rs (if demands_cmd cmd_norm r then n + 1 else n)

-- The longest run that it shows, `n` at least.
unfoldable pub slowest_of : Text → List Record → ℕ → ℕ
slowest_of cmd_norm [] n = n
slowest_of cmd_norm (r ∷ rs) n =
    slowest_of cmd_norm rs
      (if demands_cmd cmd_norm r && ltb n r.duration_ms then r.duration_ms else n)

unfoldable pub demands_in : Option CmdEvidence → ℕ
demands_in none = 0
demands_in (some e) = e.demands

unfoldable pub max_in : Option CmdEvidence → ℕ
max_in none = 0
max_in (some e) = e.max_ms

pub by_cmd-note_attempt : (r : Record) (m : Model) → (note_attempt r m).by_cmd ≡ m.by_cmd
unfolding note_attempt
by_cmd-note_attempt r m = ground arith

module _ (c : Text) (r : Record) where
  observed_demands :
      (o : Option CmdEvidence)
      → demands_in (some (observe_cmd r (evidence_or_new c o))) ≡ demands_in o + 1
  unfolding demands_in observe_cmd evidence_or_new
  observed_demands none = refl
  observed_demands (some e) = refl

  observed_max :
      (o : Option CmdEvidence)
      → max_in (some (observe_cmd r (evidence_or_new c o)))
        ≡ (if ltb (max_in o) r.duration_ms then r.duration_ms else max_in o)
  unfolding max_in observe_cmd evidence_or_new
  observed_max none = refl
  observed_max (some e) = refl

module _ (c : Text) (r : Record) (m : Model) where
  -- What one record does to what is known of the command `c`.
  counted :
      (demands_in (get (learn_record r m).by_cmd c) ≡ (
        if demands_cmd c r then demands_in (get m.by_cmd c) + 1 else demands_in (get m.by_cmd c)))
      × (max_in (get (learn_record r m).by_cmd c) ≡ (
          if demands_cmd c r && ltb (max_in (get m.by_cmd c)) r.duration_ms
          then r.duration_ms
          else max_in (get m.by_cmd c)))
  unfolding learn_record note_demand demands_cmd
  counted = elim (Bool-cases (is_demand r)) [
    | inr e ↦ rw (e, by_cmd-note_attempt) (refl, refl)
    | inl e ↦ elim (Bool-cases (text_eq r.cmd_norm c)) [
      | inr other ↦ rw (e, get-put, by_cmd-note_attempt, other) (refl, refl)
      | inl same ↦
          rw (e, get-put, by_cmd-note_attempt, same, ← text_eq_sound r.cmd_norm c same)
            (
              observed_demands r.cmd_norm r (get m.by_cmd r.cmd_norm),
              observed_max r.cmd_norm r (get m.by_cmd r.cmd_norm),
            )
    ]
  ]

counted_records :
    (c : Text) (rs : List Record) (m : Model)
    → (demands_in (get (learn_records rs m).by_cmd c)
        ≡ demands_of c rs (demands_in (get m.by_cmd c)))
      × (max_in (get (learn_records rs m).by_cmd c) ≡ slowest_of c rs (max_in (get m.by_cmd c)))
unfolding learn_records demands_of slowest_of
counted_records c [] m = (refl, refl)
counted_records c (r ∷ rs) m =
    let (d, x) = counted c r m in rw (← d, ← x) (counted_records c rs (learn_record r m))

-- The evidence for a command is what the log shows: as many demands as records of real agents that
-- hit, waited or missed with the command at a known tree, and the longest of their durations.
pub learn_records_evidence :
    (c : Text) (rs : List Record)
    → (demands_in (get (learn_records rs empty_model).by_cmd c) ≡ demands_of c rs 0)
      × (max_in (get (learn_records rs empty_model).by_cmd c) ≡ slowest_of c rs 0)
unfolding demands_in max_in get
learn_records_evidence c rs = counted_records c rs empty_model
