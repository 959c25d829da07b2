-- ===== src/Daemon/Stats.antt =====
-- internal/hp/daemon.go: the counters. Seconds are counted in milliseconds; the uptime is left out.
use fasthack.Prelude.{ℕ, ◌+◌, ◌||◌, List, [], ◌∷◌, ◌==◌, length, if◌then◌else◌}
use fasthack.Text.{Text, text, text_eq, is_empty}
use fasthack.Text.Order.{sorted}
use fasthack.Record.{Record, decision_hit, decision_miss, decision_lease_wait}
use fasthack.Store.{records}
use fasthack.Daemon.{Server}
use fasthack.Daemon.Leases.{is_true}

-- Stats; `agents` is the map of `stats`
pub record Stats : Type 0 where
  pub served : ℕ
  pub tier1 : ℕ
  pub executed : ℕ
  pub ms_deleted : ℕ
  pub ms_spent : ℕ
  pub verified : ℕ
  pub divergent : ℕ
  pub agents : List Text

abbrev pub no_stats : Stats
no_stats = record {
  served = 0;
  tier1 = 0;
  executed = 0;
  ms_deleted = 0;
  ms_spent = 0;
  verified = 0;
  divergent = 0;
  agents = [];
}

unfoldable pub count_agent : Record → Stats → Stats
count_agent r st = if is_empty r.agent then st else record st { agents = r.agent ∷ st.agents }

-- The `switch` of `stats`.
unfoldable pub count_decision : Record → Stats → Stats
count_decision r st =
    if text_eq r.decision decision_hit || text_eq r.decision decision_lease_wait
    then record st {
      served = st.served + 1;
      ms_deleted = st.ms_deleted + r.duration_ms;
      tier1 = if r.tier == 1 then st.tier1 + 1 else st.tier1;
    }
    else if text_eq r.decision decision_miss
    then record st { executed = st.executed + 1; ms_spent = st.ms_spent + r.duration_ms }
    else if text_eq r.decision (text "VERIFY")
    then (if is_true r.verified
        then record st { verified = st.verified + 1 }
        else record st { divergent = st.divergent + 1 })
    else st

unfoldable pub count_records : List Record → Stats → Stats
count_records [] st = st
count_records (r ∷ rs) st = count_records rs (count_decision r (count_agent r st))

-- stats, with the number of agents and of leases
unfoldable pub stats : Server → Stats × ℕ × ℕ
stats sv =
    let st = count_records (records sv.store) no_stats in
    (st, length (sorted st.agents), length sv.leases)
