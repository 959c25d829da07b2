-- ===== src/Corpus/Replay.antt =====
-- internal/hp/corpus.go: Replay. `none` is a call of `Classify` that does not return.
use fasthack.Prelude.{
  ℕ, zero, suc, ◌+◌, Bool, false, not, ◌&&◌, ◌||◌, Option, none, some, List, [], ◌∷◌, ◌++◌, ltb,
  leb, ◌==◌, if◌then◌else◌, length,
}
use fasthack.Text.{Text, text}
use fasthack.Text.Order.{text_less}
use fasthack.Dict.{Dict, get, put}
use fasthack.Sort.{sort_by}
use fasthack.Policy.Heads.{Policy, passthrough, record_only, serve, to_string, Verdict}
use fasthack.Policy.Classify.{classify}
use fasthack.Corpus.{
  CorpusStep, Trajectory, Keying, Tally, no_tally, ReuseKind, first_run, self_reuse, cross_agent,
  add, replay_key, keying_string,
}
use fasthack.Corpus.Load.{InstanceGroup, multi_agent_instances}
use fasthack.Corpus.Classes.{class_rank, command_class}

-- event
pub record Event : Type 0 where
  pub attempt : ℕ
  pub n : ℕ
  pub cmd : Text
  pub key : Text

unfoldable pub events_of : Keying → ℕ → List CorpusStep → List Event
events_of k i [] = []
events_of k i (st ∷ steps) =
    record { attempt = i; n = st.n; cmd = st.cmd; key = replay_key k st } ∷ events_of k i steps

unfoldable pub all_events : Keying → ℕ → List Trajectory → List Event
all_events k i [] = []
all_events k i (t ∷ ts) = events_of k i t.steps ++ all_events k (i + 1) ts

unfoldable pub event_before : Event → Event → Bool
event_before a b = if a.n == b.n then ltb a.attempt b.attempt else ltb a.n b.n

-- interleave
unfoldable pub interleave : InstanceGroup → Keying → List Event
interleave g k = sort_by event_before (all_events k 0 g.attempts)

-- sighting
pub record Sighting : Type 0 where
  pub first : ℕ
  pub multi : Bool

-- kind, by what is known of the key
unfoldable pub kind_of : ℕ → Option Sighting → ReuseKind
kind_of attempt none = first_run
kind_of attempt (some s) = if s.multi || not (s.first == attempt) then cross_agent else self_reuse

unfoldable pub sight : ℕ → Option Sighting → Sighting
sight attempt none = record { first = attempt; multi = false }
sight attempt (some s) = record s { multi = s.multi || not (s.first == attempt) }

-- cmdVerdict
pub record CmdVerdict : Type 0 where
  pub policy : Policy
  pub class : Text

unfoldable pub both : Option Verdict → Option Text → Option CmdVerdict
both none class = none
both (some v) none = none
both (some (policy, reason)) (some class) = some (record { policy = policy; class = class })

unfoldable pub verdict_of : ℕ → Text → Option CmdVerdict
verdict_of fuel cmd = both (classify fuel cmd) (command_class fuel cmd)

unfoldable pub from_cache : ℕ → Text → Option CmdVerdict → Option CmdVerdict
from_cache fuel cmd (some v) = some v
from_cache fuel cmd none = verdict_of fuel cmd

-- The result of `classifyOnce`; the cache is written behind it.
unfoldable pub classify_once : ℕ → Dict CmdVerdict → Text → Option CmdVerdict
classify_once fuel cache cmd = from_cache fuel cmd (get cache cmd)

-- stepBuckets
unfoldable pub step_buckets : List (Text × ℕ × ℕ)
step_buckets =
    (text "0-2", 0, 2)
    ∷ (text "3-9", 3, 9)
    ∷ (text "10-19", 10, 19)
    ∷ (text "20-49", 20, 49)
    ∷ (text "50+", 50, 1073741824)
    ∷ []

unfoldable pub bucket_in : List (Text × ℕ × ℕ) → ℕ → ℕ
bucket_in [] n = 0
bucket_in (b ∷ []) n = 0
bucket_in ((label, lo, hi) ∷ b ∷ bs) n =
    let later = suc (bucket_in (b ∷ bs) n) in if leb lo n && leb n hi then 0 else later

-- stepBucket: the last bucket where none fits
unfoldable pub step_bucket : ℕ → ℕ
step_bucket n = bucket_in step_buckets n

-- byPolicy, whose three keys are there from the start
pub record ByPolicy : Type 0 where
  pub serves : Tally
  pub records : Tally
  pub passes : Tally

-- What `Replay` has counted.
pub record Counts : Type 0 where
  pub overall : Tally
  pub by_policy : ByPolicy
  pub by_class : Dict Tally
  pub by_step : List Tally
  pub verdicts : Dict CmdVerdict

unfoldable pub add_policy : Policy → ReuseKind → ByPolicy → ByPolicy
add_policy serve kind b = record b { serves = add kind b.serves }
add_policy record_only kind b = record b { records = add kind b.records }
add_policy passthrough kind b = record b { passes = add kind b.passes }

unfoldable pub tally_or_new : Option Tally → Tally
tally_or_new none = no_tally
tally_or_new (some t) = t

unfoldable pub add_class : Text → ReuseKind → Dict Tally → Dict Tally
add_class class kind m = put m class (add kind (tally_or_new (get m class)))

unfoldable pub add_at : ℕ → ReuseKind → List Tally → List Tally
add_at i kind [] = []
add_at zero kind (t ∷ ts) = add kind t ∷ ts
add_at (suc i) kind (t ∷ ts) = t ∷ add_at i kind ts

-- The tallies of one event.
unfoldable pub count_event : Event → ReuseKind → CmdVerdict → Counts → Counts
count_event e kind v c = record {
  overall = add kind c.overall;
  by_policy = add_policy v.policy kind c.by_policy;
  by_class = add_class v.class kind c.by_class;
  by_step = add_at (step_bucket e.n) kind c.by_step;
  verdicts = put c.verdicts e.cmd v;
}

unfoldable pub with_class : Event → ReuseKind → Counts → Option CmdVerdict → Option Counts
with_class e kind c none = none
with_class e kind c (some v) = some (count_event e kind v c)

-- The loop over the events of an instance.
unfoldable pub replay_events : ℕ → List Event → Dict Sighting → Option Counts → Option Counts
replay_events fuel evs seen none = none
replay_events fuel [] seen (some c) = some c
replay_events fuel (e ∷ evs) seen (some c) =
    replay_events fuel evs (put seen e.key (sight e.attempt (get seen e.key)))
      (with_class e (kind_of e.attempt (get seen e.key)) c (classify_once fuel c.verdicts e.cmd))

-- The loop over the instances.
unfoldable pub replay_groups : ℕ → Keying → List InstanceGroup → Option Counts → Option Counts
replay_groups fuel k [] c = c
replay_groups fuel k (g ∷ gs) c = replay_groups fuel k gs (replay_events fuel (interleave g k) [] c)

unfoldable pub no_tallies : List (Text × ℕ × ℕ) → List Tally
no_tallies [] = []
no_tallies (b ∷ bs) = no_tally ∷ no_tallies bs

unfoldable pub no_counts : Counts
no_counts = record {
  overall = no_tally;
  by_policy = record { serves = no_tally; records = no_tally; passes = no_tally };
  by_class = [];
  by_step = no_tallies step_buckets;
  verdicts = [];
}

unfoldable pub class_before : Text × Tally → Text × Tally → Bool
class_before (a, s) (b, t) =
    if class_rank a == class_rank b then text_less a b else ltb (class_rank a) (class_rank b)

-- sortedClasses, each with its tally
unfoldable pub sorted_classes : Dict Tally → List (Text × Tally)
sorted_classes m = sort_by class_before m

unfoldable pub labelled : List (Text × ℕ × ℕ) → List Tally → List (Text × Tally)
labelled [] ts = []
labelled (b ∷ bs) [] = []
labelled ((label, lo, hi) ∷ bs) (t ∷ ts) = (label, t) ∷ labelled bs ts

-- ReplayReport, without its `Load`
pub record ReplayReport : Type 0 where
  pub keying : Text
  pub instances : ℕ
  pub attempts : ℕ
  pub fan_out : List ℕ
  pub overall : Tally
  pub under_policy : Tally
  pub by_policy : List (Text × Tally)
  pub by_class : List (Text × Tally)
  pub by_step : List (Text × Tally)

unfoldable pub fan_outs : List InstanceGroup → List ℕ
fan_outs [] = []
fan_outs (g ∷ gs) = length g.attempts ∷ fan_outs gs

unfoldable pub total : List ℕ → ℕ
total [] = 0
total (n ∷ ns) = n + total ns

unfoldable pub report : Keying → List InstanceGroup → Option Counts → Option ReplayReport
report k gs none = none
report k gs (some c) = some (record {
  keying = keying_string k;
  instances = length gs;
  attempts = total (fan_outs gs);
  fan_out = fan_outs gs;
  overall = c.overall;
  under_policy = c.by_policy.serves;
  by_policy =
      (to_string serve, c.by_policy.serves)
      ∷ (to_string record_only, c.by_policy.records)
      ∷ (to_string passthrough, c.by_policy.passes)
      ∷ [];
  by_class = sorted_classes c.by_class;
  by_step = labelled step_buckets c.by_step;
})

unfoldable pub replay_all : ℕ → List InstanceGroup → Keying → Option ReplayReport
replay_all fuel gs k = report k gs (replay_groups fuel k gs (some no_counts))

-- Replay
unfoldable pub replay : ℕ → List Trajectory → Keying → Option ReplayReport
replay fuel trajs k = replay_all fuel (multi_agent_instances trajs) k
