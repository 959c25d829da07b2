-- ===== src/Corpus/Tests.antt =====
-- A task that two agents attempted.
use fasthack.Prelude.{
  ℕ, ◌+◌, ◌≡◌, ◌≢◌, refl, inl, inr, Bool, true, false, Option, none, some, List, [], ◌∷◌, ◌++◌,
  if◌then◌else◌, Bool-cases,
}
use fasthack.Text.{Text, codes, text_eq, trim_last}
use fasthack.Text.Laws.{text_eq_sound, text_eq_refl}
use fasthack.Text.Cut.{cut_prefix, has_suffix, after_first, or_cut, after_last}
use fasthack.Text.Order.{text_less}
use fasthack.Dict.{Dict, get, put, values}
use fasthack.Sort.{insert_by, sort_by}
use fasthack.Policy.Heads.{serve}
use fasthack.Policy.Run.{run_classify}
use fasthack.Key.{normalize_command, fields, fields_from, join_fields}
use fasthack.Readset.Parse.{pos}
use fasthack.Corpus.{
  CorpusStep, Trajectory, key_state, add, cross_agent, self_reuse, first_run, replay_key,
}
use fasthack.Corpus.Load.{
  group_by_id, attempts_at, shared_groups, attempt_before, group_before, multi_agent_instances,
}
use fasthack.Corpus.Classes.{
  class_order, rank_in, class_rank, inner_reason, chain_reason, or_whole, class_of_plain,
  class_of_reason, cut_chain, chain_segments, better, with_verdict, best_class, or_other,
  command_class,
}
use fasthack.Corpus.Replay.{
  Event, events_of, all_events, event_before, interleave, kind_of, sight, both, verdict_of,
  from_cache, CmdVerdict, classify_once, step_buckets, bucket_in, step_bucket, Counts, add_policy,
  tally_or_new, add_class, add_at, count_event, with_class, replay_events, no_tallies, no_counts,
  ReplayReport, replay,
}
use fasthack.Corpus.Headline.{IsKeySet, replay_events_headline}
use fasthack.Corpus.Attribution.{ran, ran_elsewhere, replay_events_credit}
use fasthack.Corpus.Slices.{IsConsistent, replay-IsConsistent}

abbrev listing : CorpusStep
listing = record {
  n = 0;
  cmd = codes "ls";
  state = codes "s";
  rc_stored = pos 0;
  rc_replay = pos 0;
  mutated = false;
}

abbrev attempt : Text → Trajectory
attempt path = record {
  path = path;
  instance_id = codes "task";
  submission = codes "m";
  steps = listing ∷ [];
}

abbrev both_attempts : List Trajectory
both_attempts = attempt (codes "1") ∷ attempt (codes "2") ∷ []

abbrev ran_by : ℕ → Event
ran_by i = record { attempt = i; n = 0; cmd = codes "ls"; key = codes "k" }

unfoldable run_replay : List Trajectory → Option ReplayReport
unfolding run_classify trim_last cut_prefix has_suffix after_first or_cut after_last text_less get
    put values insert_by sort_by normalize_command fields fields_from join_fields add replay_key
    group_by_id attempts_at shared_groups attempt_before group_before multi_agent_instances
    class_order rank_in class_rank inner_reason chain_reason or_whole class_of_plain class_of_reason
    cut_chain chain_segments better with_verdict best_class or_other command_class events_of
    all_events event_before interleave kind_of sight both verdict_of from_cache classify_once
    step_buckets bucket_in step_bucket add_policy tally_or_new add_class add_at count_event
    with_class replay_events no_tallies no_counts
run_replay trajs = replay 20 trajs key_state

suite_class : command_class 20 (codes "cd /testbed && pytest") ≡ some (codes "build")
unfolding run_replay
suite_class = refl

abbrev one_key : Dict Bool
one_key = (codes "k", true) ∷ []

one_key-get : (k : Text) → get one_key k ≡ (if text_eq (codes "k") k then some true else none)
unfolding get
one_key-get k = refl

one_key-there : (k : Text) → codes "k" ≡ k → get one_key k ≢ none
one_key-there k e = rw (one_key-get, ← e, text_eq_refl (codes "k")) (λ h. cc h)

one_key-IsKeySet : IsKeySet one_key (ran_by 0 ∷ ran_by 1 ∷ [])
unfolding get
one_key-IsKeySet = record {
  distinct = (refl, tt);
  keys = λ k. (
    (λ h. elim (Bool-cases (text_eq (codes "k") k)) [
      | inl e ↦ inl (text_eq_sound (codes "k") k e)
      | inr e ↦ absurd (h (rw e refl))
    ]),
    (λ h. elim h [
      | inl e ↦ one_key-there k e
      | inr (inl e) ↦ one_key-there k e
      | inr (inr i) ↦ absurd i
    ]),
  );
}

replay_events_headline_example :
    (c' : Counts) × (replay_events 20 (ran_by 0 ∷ ran_by 1 ∷ []) [] (some no_counts) ≡ some c')
    × (c'.overall.commands ≡ no_counts.overall.commands + 2)
    × (c'.overall.avoidable + 1 ≡ no_counts.overall.avoidable + 2)
unfolding run_replay
replay_events_headline_example =
    replay_events_headline 20 (ran_by 0 ∷ ran_by 1 ∷ []) no_counts one_key
      ((λ h. cc h), ((λ h. cc h), tt)) one_key-IsKeySet

abbrev ls_verdict : CmdVerdict
ls_verdict = record { policy = serve; class = codes "read" }

-- The first agent has run the command.
abbrev ran_once : Counts
ran_once = count_event (ran_by 0) first_run ls_verdict no_counts

replay_events_credit_example :
    (c2 : Counts) × (replay_events 20 ((ran_by 0 ∷ []) ++ ran_by 1 ∷ []) [] (some no_counts)
      ≡ some c2)
    × (c2.overall
        ≡ add
            (if ran_elsewhere (codes "k") 1 (ran_by 0 ∷ [])
              then cross_agent
              else if ran (codes "k") (ran_by 0 ∷ [])
              then self_reuse
              else first_run)
            ran_once.overall)
unfolding run_replay
replay_events_credit_example =
    replay_events_credit 20 (ran_by 0 ∷ []) (ran_by 1) no_counts ran_once refl (λ h. cc h)

replay-IsConsistent_example :
    (rep : ReplayReport) × (replay 20 both_attempts key_state ≡ some rep) × IsConsistent rep
unfolding run_replay
replay-IsConsistent_example =
    replay-IsConsistent 20 both_attempts key_state (((λ h. cc h), ((λ h. cc h), tt)), tt)
