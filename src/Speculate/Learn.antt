-- ===== src/Speculate/Learn.antt =====
-- internal/hp/speculate.go: learnFromLog.
use fasthack.Prelude.{
  ℕ, ◌+◌, Bool, true, not, ◌&&◌, ◌||◌, Option, none, some, List, [], ◌∷◌, ◌++◌, map, ltb,
  if◌then◌else◌, length, take,
}
use fasthack.Text.{Text, text, text_eq, is_empty}
use fasthack.Text.Order.{text_less}
use fasthack.Dict.{Dict, get, put, remove, values}
use fasthack.Sort.{sort_by}
use fasthack.Record.{Record, decision_hit, decision_miss, decision_lease_wait}
use fasthack.Speculate.{CmdEvidence, SpecSite, Model, speculator_agent, spec_recent_sites}

-- A key that somebody has tried.
unfoldable pub is_attempt : Record → Bool
is_attempt r =
    not (is_empty r.key) && not (is_empty r.decision) && not (text_eq r.decision (text "VERIFY"))

-- What a real agent asked for, at a known tree.
unfoldable pub is_demand : Record → Bool
is_demand r =
    not (is_empty r.agent || text_eq r.agent speculator_agent || text_eq r.agent (text "verifier"))
    && (text_eq r.decision decision_hit
        || text_eq r.decision decision_lease_wait
        || text_eq r.decision decision_miss)
    && not (is_empty r.cmd_norm || is_empty r.tree_before)

unfoldable pub evidence_or_new : Text → Option CmdEvidence → CmdEvidence
evidence_or_new cmd_norm (some e) = e
evidence_or_new cmd_norm none = record {
  cmd = [];
  cmd_norm = cmd_norm;
  cwd_rel = [];
  max_ms = 0;
  demands = 0;
  trees = [];
}

unfoldable pub observe_cmd : Record → CmdEvidence → CmdEvidence
observe_cmd r e = record e {
  cmd = if is_empty r.cmd then e.cmd else r.cmd;
  cwd_rel = r.cwd_rel;
  demands = e.demands + 1;
  trees = put e.trees r.tree_before true;
  max_ms = if ltb e.max_ms r.duration_ms then r.duration_ms else e.max_ms;
}

-- The name of a tree with an environment.
unfoldable pub site_id : Record → Text
site_id r = r.tree_before ++ 0 ∷ r.env_fp_before

unfoldable pub site_or_new : Record → Option SpecSite → SpecSite
site_or_new r (some st) = st
site_or_new r none = record { tree = r.tree_before; env_fp = r.env_fp_before; agents = []; seq = 0 }

-- bySite[id] = st, st.seq = seq
unfoldable pub visit : ℕ → Record → Dict SpecSite → Dict SpecSite
visit seq r sites =
    put sites (site_id r) (record (site_or_new r (get sites (site_id r))) { seq = seq })

unfoldable pub without_agent : Dict SpecSite → Text → Text → Option SpecSite → Dict SpecSite
without_agent sites id agent none = sites
without_agent sites id agent (some st) =
    put sites id (record st { agents = remove st.agents agent })

-- delete(bySite[prev].agents, r.Agent), unless the agent stands where it stood
unfoldable pub leave : Record → Option Text → Dict SpecSite → Dict SpecSite
leave r none sites = sites
leave r (some prev) sites =
    if text_eq prev (site_id r) then sites else without_agent sites prev r.agent (get sites prev)

unfoldable pub with_agent : Dict SpecSite → Text → Text → Option SpecSite → Dict SpecSite
with_agent sites id agent none = sites
with_agent sites id agent (some st) = put sites id (record st { agents = put st.agents agent true })

-- st.agents[r.Agent] = true
unfoldable pub arrive : Record → Dict SpecSite → Dict SpecSite
arrive r sites = with_agent sites (site_id r) r.agent (get sites (site_id r))

unfoldable pub note_attempt : Record → Model → Model
note_attempt r m = if is_attempt r then record m { attempted = put m.attempted r.key true } else m

unfoldable pub note_demand : Record → Model → Model
note_demand r m = record m {
  by_cmd =
      put m.by_cmd r.cmd_norm
        (observe_cmd r (evidence_or_new r.cmd_norm (get m.by_cmd r.cmd_norm)));
  by_site = arrive r (leave r (get m.pos r.agent) (visit (m.seq + 1) r m.by_site));
  pos = put m.pos r.agent (site_id r);
  tree_set = put m.tree_set r.tree_before true;
  seq = m.seq + 1;
}

unfoldable pub learn_record : Record → Model → Model
learn_record r m = let m' = note_attempt r m in if is_demand r then note_demand r m' else m'

unfoldable pub learn_records : List Record → Model → Model
learn_records [] m = m
learn_records (r ∷ rs) m = learn_records rs (learn_record r m)

abbrev pub empty_model : Model
empty_model = record { by_cmd = []; by_site = []; pos = []; tree_set = []; attempted = []; seq = 0 }

unfoldable pub spelled : CmdEvidence → CmdEvidence
spelled e = if is_empty e.cmd then record e { cmd = e.cmd_norm } else e

unfoldable pub cmd_before : CmdEvidence → CmdEvidence → Bool
cmd_before a b = text_less a.cmd_norm b.cmd_norm

unfoldable pub later_site : SpecSite → SpecSite → Bool
later_site a b = ltb b.seq a.seq

-- The results of `learnFromLog`.
pub record Learned : Type 0 where
  pub cmds : List CmdEvidence
  pub sites : List SpecSite
  pub trees : ℕ
  pub attempted : Dict Bool

unfoldable pub summary : Model → Learned
summary m = record {
  cmds = sort_by cmd_before (map spelled (values m.by_cmd));
  sites = take spec_recent_sites (sort_by later_site (values m.by_site));
  trees = length m.tree_set;
  attempted = m.attempted;
}

-- learnFromLog
unfoldable pub learn_from_log : List Record → Learned
learn_from_log rs = summary (learn_records rs empty_model)
