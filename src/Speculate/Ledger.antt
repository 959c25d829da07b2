-- ===== src/Speculate/Ledger.antt =====
-- internal/hp/speculate.go: SpecStats and /suggest. Seconds are counted in milliseconds, and the
-- rate of hits is the pair of its counts.
use fasthack.Prelude.{
  ℕ, ◌+◌, Bool, true, ◌||◌, Option, none, some, List, [], ◌∷◌, ltb, ◌==◌, if◌then◌else◌, length,
}
use fasthack.Text.{text_eq, is_empty}
use fasthack.Dict.{Dict, put}
use fasthack.Record.{Record, decision_hit, decision_miss, decision_lease_wait}
use fasthack.Store.{records}
use fasthack.Daemon.{Server}
use fasthack.Speculate.{speculator_agent, default_suggest_limit}
use fasthack.Speculate.Suggest.{Ratio, Suggestion, Setup, suggestions}

-- The variables of `SpecStats`.
pub record Ledger : Type 0 where
  pub produced : Dict Bool
  pub servable : Dict Bool
  pub used : Dict Bool
  pub serves : ℕ
  pub ms_spent : ℕ
  pub ms_deleted : ℕ

-- SpecStats; NetSeconds is `ms_deleted` less `ms_spent`
pub record SpecStats : Type 0 where
  pub produced : ℕ
  pub servable : ℕ
  pub used : ℕ
  pub serves : ℕ
  pub hit_rate : Ratio
  pub ms_spent : ℕ
  pub ms_deleted : ℕ

-- SuggestResp
pub record SuggestResp : Type 0 where
  pub suggestions : List Suggestion
  pub spec : SpecStats
  pub inflight : ℕ

abbrev pub empty_ledger : Ledger
empty_ledger = record {
  produced = [];
  servable = [];
  used = [];
  serves = 0;
  ms_spent = 0;
  ms_deleted = 0;
}

unfoldable pub count_own : Record → Ledger → Ledger
count_own r st =
    if text_eq r.decision decision_miss
    then record st {
      produced = put st.produced r.key true;
      ms_spent = st.ms_spent + r.duration_ms;
      servable = if r.servable then put st.servable r.key true else st.servable;
    }
    else st

unfoldable pub count_served : Record → Ledger → Ledger
count_served r st =
    if text_eq r.decision decision_hit || text_eq r.decision decision_lease_wait
    then (if text_eq r.source_agent speculator_agent
        then record st {
          used = put st.used r.key true;
          serves = st.serves + 1;
          ms_deleted = st.ms_deleted + r.duration_ms;
        }
        else st)
    else st

-- The body of the loop.
unfoldable pub count_record : Record → Ledger → Ledger
count_record r st =
    if is_empty r.key
    then st
    else if text_eq r.agent speculator_agent
    then count_own r st
    else count_served r st

unfoldable pub count_ledger : List Record → Ledger → Ledger
count_ledger [] st = st
count_ledger (r ∷ rs) st = count_ledger rs (count_record r st)

-- math.Min(1, used / produced), and 0 where nothing is produced
unfoldable pub hit_rate : ℕ → ℕ → Ratio
hit_rate used produced =
    if produced == 0
    then record { num = 0; den = 1 }
    else if ltb produced used
    then record { num = 1; den = 1 }
    else record { num = used; den = produced }

unfoldable pub stats_of : Ledger → SpecStats
stats_of st = record {
  produced = length st.produced;
  servable = length st.servable;
  used = length st.used;
  serves = st.serves;
  hit_rate = hit_rate (length st.used) (length st.produced);
  ms_spent = st.ms_spent;
  ms_deleted = st.ms_deleted;
}

-- SpecStats
unfoldable pub spec_stats : Server → SpecStats
spec_stats sv = stats_of (count_ledger (records sv.store) empty_ledger)

-- The limit that a request names: `none` where the parameter is missing or no number.
unfoldable pub limit_of : Option ℕ → ℕ
limit_of none = default_suggest_limit
limit_of (some n) = if ltb 0 n then n else default_suggest_limit

abbrev pub respond : Server → Option (List Suggestion) → Option SuggestResp
respond sv none = none
respond sv (some out) =
    some (record { suggestions = out; spec = spec_stats sv; inflight = length sv.leases })

-- handleSuggest; `none` where it does not return
unfoldable pub handle_suggest : Setup → Server → Option ℕ → Option SuggestResp
handle_suggest w sv limit = respond sv (suggestions w sv (limit_of limit))
