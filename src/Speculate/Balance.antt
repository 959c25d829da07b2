-- ===== src/Speculate/Balance.antt =====
-- internal/hp/speculate.go: the ledger of speculation.
use fasthack.Prelude.{
  ℕ, ◌+◌, ◌≤◌, ◌<◌, ◌≢◌, none, some, inl, inr, Bool, true, false, ◌||◌, List, [], ◌∷◌, arith, ltb,
  ◌==◌, if◌then◌else◌, Bool-cases, length,
}
use fasthack.Text.{Text, text_eq, is_empty}
use fasthack.Dict.{Dict, get, put}
use fasthack.Dict.Laws.{get-put}
use fasthack.Dict.Counts.{IsDistinct, put-IsDistinct, length-put, length-within}
use fasthack.Record.{Record, decision_hit, decision_miss, decision_lease_wait}
use fasthack.Store.{records}
use fasthack.Daemon.{Server}
use fasthack.Speculate.{speculator_agent}
use fasthack.Speculate.Ledger.{
  Ledger, empty_ledger, count_own, count_served, count_record, count_ledger, hit_rate, stats_of,
  spec_stats,
}

-- Whatever is servable was produced, and each used key was served.
pub record IsBalanced (st : Ledger) : Type 0 where
  pub distinct : IsDistinct st.servable
  pub made : (k : Text) → get st.servable k ≢ none → get st.produced k ≢ none
  pub served : length st.used ≤ st.serves

-- What is put is there, and what was there stays.
kept : (m : Dict Bool) (k j : Text) → get m j ≢ none → get (put m k true) j ≢ none
kept m k j h = rw get-put (by_key (text_eq k j))
  where
    by_key : (b : Bool) → (if b then some true else get m j) ≢ none
    by_key true = λ e. cc e
    by_key false = h

both_put :
    (a b : Dict Bool) (k : Text)
    → ((j : Text) → get a j ≢ none → get b j ≢ none)
    → (j : Text) → get (put a k true) j ≢ none
    → get (put b k true) j ≢ none
both_put a b k h j = rw (get-put, get-put) (by_key (text_eq k j))
  where
    by_key :
        (c : Bool)
        → (if c then some true else get a j) ≢ none
        → (if c then some true else get b j) ≢ none
    by_key true g = g
    by_key false g = h j g

own_serving :
    (b : Bool) (key : Text) (ms : ℕ) (st : Ledger)
    → IsBalanced st
    → IsBalanced (record st {
      produced = put st.produced key true;
      ms_spent = st.ms_spent + ms;
      servable = if b then put st.servable key true else st.servable;
    })
own_serving true key ms st i = record {
  distinct = put-IsDistinct st.servable key true i.distinct;
  made = both_put st.servable st.produced key i.made;
  served = i.served;
}
own_serving false key ms st i = record {
  distinct = i.distinct;
  made = λ j g. kept st.produced key j (i.made j g);
  served = i.served;
}

count_own-IsBalanced : (r : Record) (st : Ledger) → IsBalanced st → IsBalanced (count_own r st)
unfolding count_own
count_own-IsBalanced r st i = elim (Bool-cases (text_eq r.decision decision_miss)) [
  | inr e ↦ rw e i
  | inl e ↦ rw e (own_serving r.servable r.key r.duration_ms st i)
]

length-put_le : (m : Dict Bool) (k : Text) → length (put m k true) ≤ length m + 1
length-put_le m k = rw length-put (ground arith)

serving :
    (b : Bool) (key : Text) (ms : ℕ) (st : Ledger)
    → IsBalanced st
    → IsBalanced (
        if b
        then record st {
          used = put st.used key true;
          serves = st.serves + 1;
          ms_deleted = st.ms_deleted + ms;
        }
        else st)
serving true key ms st i = record {
  distinct = i.distinct;
  made = i.made;
  served = omega (arith, length-put_le st.used key, i.served);
}
serving false key ms st i = i

count_served-IsBalanced :
    (r : Record) (st : Ledger) → IsBalanced st → IsBalanced (count_served r st)
unfolding count_served
count_served-IsBalanced r st i =
    elim (Bool-cases (text_eq r.decision decision_hit || text_eq r.decision decision_lease_wait)) [
      | inl e ↦ rw e (serving (text_eq r.source_agent speculator_agent) r.key r.duration_ms st i)
      | inr e ↦ rw e i
    ]

count_record-IsBalanced :
    (r : Record) (st : Ledger) → IsBalanced st → IsBalanced (count_record r st)
unfolding count_record
count_record-IsBalanced r st i = elim (Bool-cases (is_empty r.key)) [
  | inl e ↦ rw e i
  | inr e ↦ elim (Bool-cases (text_eq r.agent speculator_agent)) [
    | inl own ↦ rw (e, own) (count_own-IsBalanced r st i)
    | inr other ↦ rw (e, other) (count_served-IsBalanced r st i)
  ]
]

count_ledger-IsBalanced :
    (rs : List Record) (st : Ledger) → IsBalanced st → IsBalanced (count_ledger rs st)
unfolding count_ledger
count_ledger-IsBalanced [] st i = i
count_ledger-IsBalanced (r ∷ rs) st i =
    count_ledger-IsBalanced rs (count_record r st) (count_record-IsBalanced r st i)

empty-IsBalanced : IsBalanced empty_ledger
unfolding get
empty-IsBalanced = record { distinct = tt; made = λ k h. h; served = omega arith }

hit_rate_bounds :
    (used produced : ℕ)
    → (0 < (hit_rate used produced).den)
      × ((hit_rate used produced).num ≤ (hit_rate used produced).den)
unfolding hit_rate
hit_rate_bounds used produced = elim (Bool-cases (produced == 0)) [
  | inl e ↦ rw e (omega arith)
  | inr e ↦ elim (Bool-cases (ltb produced used)) [
    | inl f ↦ rw (e, f) (omega arith)
    | inr f ↦ rw (e, f) (ground arith)
  ]
]

-- At most as many results are servable as were produced, at most as many used as there were serves,
-- and the rate of hits is a fraction of at most 1.
pub spec_stats_bounds :
    (sv : Server)
    → ((spec_stats sv).servable ≤ (spec_stats sv).produced)
      × ((spec_stats sv).used ≤ (spec_stats sv).serves)
      × (0 < (spec_stats sv).hit_rate.den)
      × ((spec_stats sv).hit_rate.num ≤ (spec_stats sv).hit_rate.den)
unfolding spec_stats stats_of
spec_stats_bounds sv =
    let st = count_ledger (records sv.store) empty_ledger in
    let i = count_ledger-IsBalanced (records sv.store) empty_ledger empty-IsBalanced in
    let (proper, most) = hit_rate_bounds (length st.used) (length st.produced) in
    (length-within st.servable st.produced i.distinct i.made, i.served, proper, most)
