-- ===== src/Corpus/Slices.antt =====
-- internal/hp/corpus.go: the slices of the report.
use fasthack.Prelude.{
  ℕ, zero, suc, ◌+◌, ◌<◌, ◌≡◌, refl, ap, ◌∙◌, inl, inr, ◌&&◌, some, List, [], ◌∷◌, arith, leb,
  Bool-cases, length, All,
}
use fasthack.Text.{Text, text_eq}
use fasthack.Dict.{Dict, get, put, values}
use fasthack.Sort.{insert_by, sort_by}
use fasthack.Policy.Heads.{passthrough, record_only, serve, Policy}
use fasthack.Corpus.{
  Trajectory, Keying, Tally, no_tally, ReuseKind, first_run, self_reuse, cross_agent, add,
}
use fasthack.Corpus.Load.{InstanceGroup, multi_agent_instances}
use fasthack.Corpus.Replay.{
  Event, Sighting, kind_of, sight, interleave, CmdVerdict, step_buckets, bucket_in, step_bucket,
  ByPolicy, Counts, add_policy, tally_or_new, add_class, add_at, count_event, replay_events,
  replay_groups, sorted_classes, class_before, labelled, no_tallies, no_counts, replay, replay_all,
  report, ReplayReport,
}
use fasthack.Corpus.Headline.{Returns, classify_once-returns, replay_events_step}

unfoldable pub plus : Tally → Tally → Tally
plus s t = record {
  commands = s.commands + t.commands;
  avoidable = s.avoidable + t.avoidable;
  self_reuse = s.self_reuse + t.self_reuse;
  cross_agent = s.cross_agent + t.cross_agent;
}

unfoldable pub sum_tallies : List Tally → Tally
sum_tallies [] = no_tally
sum_tallies (t ∷ ts) = plus t (sum_tallies ts)

-- Each table splits the whole: its rows add up to the overall tally.
pub record IsSliced (c : Counts) : Type 0 where
  pub policies :
      sum_tallies (c.by_policy.serves ∷ c.by_policy.records ∷ c.by_policy.passes ∷ []) ≡ c.overall
  pub classes : sum_tallies (values c.by_class) ≡ c.overall
  pub steps : sum_tallies c.by_step ≡ c.overall
  pub buckets : length c.by_step ≡ 5
  pub shares : c.overall.avoidable ≡ c.overall.self_reuse + c.overall.cross_agent

add-plus : (k : ReuseKind) (s t : Tally) → plus (add k s) t ≡ add k (plus s t)
unfolding plus add
add-plus first_run s t = ground arith
add-plus self_reuse s t = ground arith
add-plus cross_agent s t = ground arith

plus-add : (k : ReuseKind) (s t : Tally) → plus s (add k t) ≡ add k (plus s t)
unfolding plus add
plus-add first_run s t = ground arith
plus-add self_reuse s t = ground arith
plus-add cross_agent s t = ground arith

sum_tallies-add_policy :
    (p : Policy) (k : ReuseKind) (b : ByPolicy)
    → sum_tallies
        ((add_policy p k b).serves ∷ (add_policy p k b).records ∷ (add_policy p k b).passes ∷ [])
      ≡ add k (sum_tallies (b.serves ∷ b.records ∷ b.passes ∷ []))
unfolding sum_tallies add_policy
sum_tallies-add_policy serve k b = add-plus k b.serves _
sum_tallies-add_policy record_only k b = rw (add-plus, plus-add) refl
sum_tallies-add_policy passthrough k b = rw (add-plus, plus-add, plus-add) refl

sum_tallies-add_class :
    (class : Text) (k : ReuseKind) (m : Dict Tally)
    → sum_tallies (values (add_class class k m)) ≡ add k (sum_tallies (values m))
unfolding sum_tallies add_class values put get tally_or_new plus
sum_tallies-add_class class k [] = add-plus k no_tally no_tally
sum_tallies-add_class class k ((j, t) ∷ m) = elim (Bool-cases (text_eq j class)) [
  | inl e ↦ rw e (add-plus k t (sum_tallies (values m)))
  | inr e ↦
      rw e (ap (plus t) (sum_tallies-add_class class k m) ∙ plus-add k t (sum_tallies (values m)))
]

sum_tallies-add_at :
    (i : ℕ) (k : ReuseKind) (ts : List Tally)
    → i < length ts
    → sum_tallies (add_at i k ts) ≡ add k (sum_tallies ts)
unfolding sum_tallies add_at
sum_tallies-add_at i k [] h = absurd (omega (arith, h))
sum_tallies-add_at zero k (t ∷ ts) h = add-plus k t (sum_tallies ts)
sum_tallies-add_at (suc i) k (t ∷ ts) h =
    ap (plus t) (sum_tallies-add_at i k ts (omega (arith, h))) ∙ plus-add k t (sum_tallies ts)

length-add_at : (i : ℕ) (k : ReuseKind) (ts : List Tally) → length (add_at i k ts) ≡ length ts
unfolding add_at
length-add_at i k [] = refl
length-add_at zero k (t ∷ ts) = refl
length-add_at (suc i) k (t ∷ ts) = ap suc (length-add_at i k ts)

bucket_bound :
    (b : Text × ℕ × ℕ) (bs : List (Text × ℕ × ℕ)) (n : ℕ) → bucket_in (b ∷ bs) n < length (b ∷ bs)
unfolding bucket_in
bucket_bound b [] n = omega arith
bucket_bound (label, lo, hi) (b ∷ bs) n = elim (Bool-cases (leb lo n && leb n hi)) [
  | inl e ↦ rw e (omega arith)
  | inr e ↦ rw e (omega (arith, bucket_bound b bs n))
]

step_bucket_bound : (n : ℕ) → step_bucket n < 5
unfolding step_bucket step_buckets
step_bucket_bound n = bucket_bound _ _ n

shares-add :
    (k : ReuseKind) (t : Tally)
    → t.avoidable ≡ t.self_reuse + t.cross_agent
    → (add k t).avoidable ≡ (add k t).self_reuse + (add k t).cross_agent
unfolding add
shares-add first_run t h = omega (arith, h)
shares-add self_reuse t h = omega (arith, h)
shares-add cross_agent t h = omega (arith, h)

count_event-IsSliced :
    (e : Event) (k : ReuseKind) (v : CmdVerdict) (c : Counts)
    → IsSliced c
    → IsSliced (count_event e k v c)
unfolding count_event
count_event-IsSliced e k v c i = record {
  policies = sum_tallies-add_policy v.policy k c.by_policy ∙ ap (add k) i.policies;
  classes = sum_tallies-add_class v.class k c.by_class ∙ ap (add k) i.classes;
  steps =
      sum_tallies-add_at (step_bucket e.n) k c.by_step
        (omega (arith, step_bucket_bound e.n, i.buckets))
      ∙ ap (add k) i.steps;
  buckets = length-add_at (step_bucket e.n) k c.by_step ∙ i.buckets;
  shares = shares-add k c.overall i.shares;
}

replay_events-IsSliced :
    (fuel : ℕ) (evs : List Event) (seen : Dict Sighting) (c : Counts)
    → All (Returns fuel) evs
    → IsSliced c
    → (c' : Counts) × (replay_events fuel evs seen (some c) ≡ some c') × IsSliced c'
unfolding replay_events
replay_events-IsSliced fuel [] seen c h i = (c, refl, i)
replay_events-IsSliced fuel (e ∷ evs) seen c h i =
    let (v, classified) = classify_once-returns fuel c.verdicts e.cmd h.0 in
    let kind = kind_of e.attempt (get seen e.key) in
    let (c', returned, sliced) =
      replay_events-IsSliced fuel evs (put seen e.key (sight e.attempt (get seen e.key)))
        (count_event e kind v c) h.1 (count_event-IsSliced e kind v c i) in
    (c', replay_events_step fuel e evs seen c v classified ∙ returned, sliced)

replay_groups-IsSliced :
    (fuel : ℕ) (k : Keying) (gs : List InstanceGroup) (c : Counts)
    → All (λ g. All (Returns fuel) (interleave g k)) gs
    → IsSliced c
    → (c' : Counts) × (replay_groups fuel k gs (some c) ≡ some c') × IsSliced c'
unfolding replay_groups
replay_groups-IsSliced fuel k [] c h i = (c, refl, i)
replay_groups-IsSliced fuel k (g ∷ gs) c h i =
    let (c1, returned, sliced) = replay_events-IsSliced fuel (interleave g k) [] c h.0 i in
    let (c2, rest, all) = replay_groups-IsSliced fuel k gs c1 h.1 sliced in
    (c2, ap (replay_groups fuel k gs) returned ∙ rest, all)

no_counts-IsSliced : IsSliced no_counts
unfolding no_counts no_tallies step_buckets sum_tallies plus values
no_counts-IsSliced = record {
  policies = refl;
  classes = refl;
  steps = refl;
  buckets = refl;
  shares = omega arith;
}

-- The tables of a report: the rows of each add up to the overall tally.
pub record IsConsistent (rep : ReplayReport) : Type 0 where
  pub policies : sum_tallies (values rep.by_policy) ≡ rep.overall
  pub classes : sum_tallies (values rep.by_class) ≡ rep.overall
  pub steps : sum_tallies (values rep.by_step) ≡ rep.overall
  pub shares : rep.overall.avoidable ≡ rep.overall.self_reuse + rep.overall.cross_agent

plus-swap : (a b c : Tally) → plus a (plus b c) ≡ plus b (plus a c)
unfolding plus
plus-swap a b c = ground arith

sum_tallies-insert_by :
    (class : Text) (t : Tally) (m : Dict Tally)
    → sum_tallies (values (insert_by class_before (class, t) m)) ≡ plus t (sum_tallies (values m))
unfolding insert_by sum_tallies values
sum_tallies-insert_by class t [] = refl
sum_tallies-insert_by class t ((j, u) ∷ m) = elim (Bool-cases (class_before (j, u) (class, t))) [
  | inl e ↦
      rw e (ap (plus u) (sum_tallies-insert_by class t m) ∙ plus-swap u t (sum_tallies (values m)))
  | inr e ↦ rw e refl
]

sum_tallies-sorted_classes :
    (m : Dict Tally) → sum_tallies (values (sorted_classes m)) ≡ sum_tallies (values m)
unfolding sorted_classes sort_by sum_tallies values
sum_tallies-sorted_classes [] = refl
sum_tallies-sorted_classes ((j, t) ∷ m) =
    sum_tallies-insert_by j t (sort_by class_before m) ∙ ap (plus t) (sum_tallies-sorted_classes m)

values-labelled :
    (bs : List (Text × ℕ × ℕ)) (ts : List Tally)
    → length ts ≡ length bs
    → values (labelled bs ts) ≡ ts
unfolding values labelled
values-labelled [] [] h = refl
values-labelled [] (t ∷ ts) h = absurd (omega (arith, h))
values-labelled (b ∷ bs) [] h = absurd (omega (arith, h))
values-labelled ((label, lo, hi) ∷ bs) (t ∷ ts) h =
    ap (λ us. t ∷ us) (values-labelled bs ts (omega (arith, h)))

steps-IsSliced : (c : Counts) → IsSliced c → values (labelled step_buckets c.by_step) ≡ c.by_step
unfolding step_buckets
steps-IsSliced c i = values-labelled _ c.by_step i.buckets

report-IsConsistent :
    (k : Keying) (gs : List InstanceGroup) (c : Counts)
    → IsSliced c
    → (rep : ReplayReport) × (report k gs (some c) ≡ some rep) × IsConsistent rep
unfolding report values
report-IsConsistent k gs c i = (
  _,
  refl,
  record {
    policies = i.policies;
    classes = sum_tallies-sorted_classes c.by_class ∙ i.classes;
    steps = ap sum_tallies (steps-IsSliced c i) ∙ i.steps;
    shares = i.shares;
  },
)

-- If the classifier returns for each command of the tasks that several agents attempted, the replay
-- returns a report in which the rows of each table, by policy, by class and by step, add up to the
-- overall tally, and what is avoidable is reused by the same agent or across agents.
pub replay-IsConsistent :
    (fuel : ℕ) (trajs : List Trajectory) (k : Keying)
    → All (λ g. All (Returns fuel) (interleave g k)) (multi_agent_instances trajs)
    → (rep : ReplayReport) × (replay fuel trajs k ≡ some rep) × IsConsistent rep
unfolding replay replay_all
replay-IsConsistent fuel trajs k h =
    let gs = multi_agent_instances trajs in
    let (c, returned, sliced) = replay_groups-IsSliced fuel k gs no_counts h no_counts-IsSliced in
    let (rep, made, consistent) = report-IsConsistent k gs c sliced in
    (rep, ap (report k gs) returned ∙ made, consistent)
