-- ===== src/Daemon/Counts.antt =====
-- The counters of `stats` (internal/hp/daemon.go) against a count over the log's records.
use fasthack.Prelude.{
  inl, inr, Bool-cases, ℕ, ◌+◌, ◌≡◌, refl, Bool, true, false, ◌||◌, ◌&&◌, not, ◌==◌, List, [], ◌∷◌,
  arith, if◌then◌else◌,
}
use fasthack.Text.{Text, text, text_eq}
use fasthack.Text.Laws.{text_eq_apart}
use fasthack.Record.{Record, decision_hit, decision_miss, decision_lease_wait}
use fasthack.Store.{records}
use fasthack.Daemon.{Server}
use fasthack.Daemon.Leases.{is_true}
use fasthack.Daemon.Stats.{Stats, no_stats, count_agent, count_decision, count_records, stats}

-- How many records pass the test, and their duration.
unfoldable pub number_of : (Record → Bool) → List Record → ℕ
number_of test [] = 0
number_of test (r ∷ rs) = (if test r then 1 else 0) + number_of test rs

unfoldable pub duration_of : (Record → Bool) → List Record → ℕ
duration_of test [] = 0
duration_of test (r ∷ rs) = (if test r then r.duration_ms else 0) + duration_of test rs

abbrev pub was_served : Record → Bool
was_served r = text_eq r.decision decision_hit || text_eq r.decision decision_lease_wait

abbrev pub was_executed : Record → Bool
was_executed r = text_eq r.decision decision_miss

-- A hit or a wait that tier 1 has answered.
abbrev pub was_scoped : Record → Bool
was_scoped r = was_served r && r.tier == 1

-- A verdict that the run agreed with what was cached.
abbrev pub was_confirmed : Record → Bool
was_confirmed r = text_eq r.decision (text "VERIFY") && is_true r.verified

-- Any other verdict.
abbrev pub was_refuted : Record → Bool
was_refuted r = text_eq r.decision (text "VERIFY") && not (is_true r.verified)

-- The decisions are different words.
module _ (d : Text) where
  served-unexecuted :
      (text_eq d decision_hit || text_eq d decision_lease_wait) ≡ true
      → text_eq d decision_miss ≡ false
  unfolding decision_hit decision_miss decision_lease_wait text text_eq
  served-unexecuted h = elim (Bool-cases (text_eq d decision_hit)) [
    | inl e ↦ text_eq_apart d decision_hit decision_miss refl e
    | inr e ↦ text_eq_apart d decision_lease_wait decision_miss refl (rw e at h)
  ]

  served-unverified :
      (text_eq d decision_hit || text_eq d decision_lease_wait) ≡ true
      → text_eq d (text "VERIFY") ≡ false
  unfolding decision_hit decision_lease_wait text text_eq
  served-unverified h = elim (Bool-cases (text_eq d decision_hit)) [
    | inl e ↦ text_eq_apart d decision_hit (text "VERIFY") refl e
    | inr e ↦ text_eq_apart d decision_lease_wait (text "VERIFY") refl (rw e at h)
  ]

  executed-unverified : text_eq d decision_miss ≡ true → text_eq d (text "VERIFY") ≡ false
  unfolding decision_miss text text_eq
  executed-unverified h = text_eq_apart d decision_miss (text "VERIFY") refl h

-- What counting the records adds to the counters.
pub record IsCountOf (rs : List Record) (st st' : Stats) : Type 0 where
  pub served : st'.served ≡ st.served + number_of was_served rs
  pub executed : st'.executed ≡ st.executed + number_of was_executed rs
  pub verified : st'.verified ≡ st.verified + number_of was_confirmed rs
  pub divergent : st'.divergent ≡ st.divergent + number_of was_refuted rs
  pub deleted : st'.ms_deleted ≡ st.ms_deleted + duration_of was_served rs
  pub spent : st'.ms_spent ≡ st.ms_spent + duration_of was_executed rs
  pub scoped : st'.tier1 ≡ st.tier1 + number_of was_scoped rs

IsCountOf-one :
    (r : Record) (st : Stats) → IsCountOf (r ∷ []) st (count_decision r (count_agent r st))
unfolding count_decision count_agent number_of duration_of
IsCountOf-one r st =
    let a = served-unexecuted r.decision in
    let b = served-unverified r.decision in
    let c = executed-unverified r.decision in
    record {
      served = ground arith;
      executed = ground arith;
      verified = ground arith;
      divergent = ground arith;
      deleted = ground arith;
      spent = ground arith;
      scoped = ground arith;
    }

count_records-IsCountOf : (rs : List Record) (st : Stats) → IsCountOf rs st (count_records rs st)
unfolding count_records number_of duration_of
count_records-IsCountOf [] st = record {
  served = omega arith;
  executed = omega arith;
  verified = omega arith;
  divergent = omega arith;
  deleted = omega arith;
  spent = omega arith;
  scoped = omega arith;
}
count_records-IsCountOf (r ∷ rs) st =
    let one = IsCountOf-one r st in
    let more = count_records-IsCountOf rs (count_decision r (count_agent r st)) in
    record {
      served = omega (arith, one.served, more.served);
      executed = omega (arith, one.executed, more.executed);
      verified = omega (arith, one.verified, more.verified);
      divergent = omega (arith, one.divergent, more.divergent);
      deleted = omega (arith, one.deleted, more.deleted);
      spent = omega (arith, one.spent, more.spent);
      scoped = omega (arith, one.scoped, more.scoped);
    }

-- The counters say of the records of the store: how many hits and lease waits there are, and how
-- many of them tier 1 has answered; how many misses; how many verdicts that the run agreed, and how
-- many that it did not; and the time of the hits and waits and that of the misses.
pub stats-IsCountOf : (sv : Server) → IsCountOf (records sv.store) no_stats (stats sv).0
unfolding stats
stats-IsCountOf sv = count_records-IsCountOf (records sv.store) no_stats
