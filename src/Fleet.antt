-- ===== src/Fleet.antt =====
-- internal/hp/fleet.go: where every agent of the fan-out stands, by the log and the leases. A time
-- stamp is a number of milliseconds, and the groups of a map are in the order of their insertion.
mod Clusters
mod Tests
use fasthack.Prelude.{
  ℕ, zero, suc, ◌+◌, Bool, true, false, not, ◌&&◌, ◌||◌, Option, none, some, List, [], ◌∷◌, ◌++◌,
  map, ltb, ◌==◌, if◌then◌else◌, length,
}
use fasthack.Text.{Text, text, text_eq, is_empty}
use fasthack.Text.Order.{text_less, itoa}
use fasthack.Dict.{Dict, get, put, values}
use fasthack.Sort.{sort_by}
use fasthack.Record.{Record, decision_hit, decision_miss, decision_lease_wait}
use fasthack.Store.{records}
use fasthack.Daemon.{Server, Lease}

-- AgentState
pub record AgentState : Type 0 where
  pub agent : Text
  pub tree : Text
  pub last_cmd : Text
  pub commands : ℕ
  pub served : ℕ
  pub executed : ℕ
  pub in_flight : Text
  pub peers : List Text
  pub last_seen : ℕ

-- FleetView
pub record FleetView : Type 0 where
  pub agents : List AgentState
  pub clusters : List (List Text)
  pub converged : Bool
  pub fully_apart : Bool
  pub assessment : Text

-- plural
unfoldable pub plural : ℕ → Text → Text
plural n noun = itoa n ++ b' ' ∷ (if n == 1 then noun else noun ++ text "s")

-- A record of an agent of the fan-out.
unfoldable pub is_fleet : Record → Bool
is_fleet r = not (is_empty r.agent || text_eq r.agent (text "verifier"))

unfoldable pub agent_or_new : Text → Option AgentState → AgentState
agent_or_new agent (some st) = st
agent_or_new agent none = record {
  agent = agent;
  tree = [];
  last_cmd = [];
  commands = 0;
  served = 0;
  executed = 0;
  in_flight = [];
  peers = [];
  last_seen = 0;
}

unfoldable pub observe_agent : Record → AgentState → AgentState
observe_agent r st =
    let serves = text_eq r.decision decision_hit || text_eq r.decision decision_lease_wait in
    record st {
      commands = st.commands + 1;
      served = if serves then st.served + 1 else st.served;
      executed =
          if serves
          then st.executed
          else if text_eq r.decision decision_miss
          then st.executed + 1
          else st.executed;
      tree = if is_empty r.tree_before then st.tree else r.tree_before;
      last_cmd = if is_empty r.cmd then st.last_cmd else r.cmd;
      last_seen = if ltb st.last_seen r.ts then r.ts else st.last_seen;
    }

-- The first loop of `Fleet`; the map `latest` keeps the order of `order`.
unfoldable pub positions : List Record → Dict AgentState → Dict AgentState
positions [] latest = latest
positions (r ∷ rs) latest = positions rs (
    if is_fleet r
    then put latest r.agent (observe_agent r (agent_or_new r.agent (get latest r.agent)))
    else latest)

unfoldable pub in_flight : Dict AgentState → Text → Option AgentState → Dict AgentState
in_flight latest agent none = latest
in_flight latest agent (some st) = put latest agent (record st { in_flight = st.last_cmd })

-- The loop over the leases.
unfoldable pub mark_leases : List Lease → Dict AgentState → Dict AgentState
mark_leases [] latest = latest
mark_leases (l ∷ ls) latest = mark_leases ls (in_flight latest l.agent (get latest l.agent))

unfoldable pub group_or_empty : Option (List Text) → List Text
group_or_empty none = []
group_or_empty (some group) = group

unfoldable pub group_at : Dict (List Text) → Text → List Text
group_at groups tree = group_or_empty (get groups tree)

-- byTree
unfoldable pub by_tree : List AgentState → Dict (List Text) → Dict (List Text)
by_tree [] groups = groups
by_tree (st ∷ sts) groups = by_tree sts (
    if is_empty st.tree
    then groups
    else put groups st.tree (group_at groups st.tree ++ st.agent ∷ []))

unfoldable pub others : Text → List Text → List Text
others agent [] = []
others agent (peer ∷ peers) =
    let rest = others agent peers in if text_eq peer agent then rest else peer ∷ rest

unfoldable pub with_peers : Dict (List Text) → AgentState → AgentState
with_peers groups st = record st { peers = st.peers ++ others st.agent (group_at groups st.tree) }

unfoldable pub larger : List Text → List Text → Bool
larger a b = ltb (length b) (length a)

unfoldable pub clusters_of : Dict (List Text) → List (List Text)
clusters_of groups = sort_by larger (map (sort_by text_less) (values groups))

-- The `switch` at the end of `Fleet`.
unfoldable pub assess : List AgentState → List (List Text) → FleetView
assess agents clusters =
    let n = length agents in
    let k = length clusters in
    if ltb n 2
    then record {
      agents = agents;
      clusters = clusters;
      converged = false;
      fully_apart = false;
      assessment = text "not a fan-out";
    }
    else if k == 1
    then record {
      agents = agents;
      clusters = clusters;
      converged = true;
      fully_apart = false;
      assessment =
          text "collapsed: every agent is at the same state, so this fan-out "
          ++ text "is paying N times for one search";
    }
    else if k == n
    then record {
      agents = agents;
      clusters = clusters;
      converged = false;
      fully_apart = true;
      assessment =
          text "fully diverged: no two agents share a state, so nothing can be "
          ++ text "shared and results are not comparable";
    }
    else record {
      agents = agents;
      clusters = clusters;
      converged = false;
      fully_apart = false;
      assessment =
          text "exploring: "
          ++ plural k (text "distinct state")
          ++ text " across "
          ++ plural n (text "agent");
    }

unfoldable pub fleet_of : List AgentState → FleetView
fleet_of sts =
    let groups = by_tree sts [] in assess (map (with_peers groups) sts) (clusters_of groups)

-- Fleet
unfoldable pub fleet : Server → FleetView
fleet sv = fleet_of (values (mark_leases (values sv.leases) (positions (records sv.store) [])))
