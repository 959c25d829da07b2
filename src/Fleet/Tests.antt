-- ===== src/Fleet/Tests.antt =====
-- A fan-out of two agents that are apart.
use fasthack.Prelude.{◌≡◌, refl, true, false, none, List, [], ◌∷◌}
use fasthack.Text.{Text, codes, text, text_eq, is_empty}
use fasthack.Text.Order.{text_less}
use fasthack.Dict.{get, put, values}
use fasthack.Sort.{insert_by, sort_by}
use fasthack.Record.{Record, decision_hit, decision_miss, decision_lease_wait}
use fasthack.Store.{records}
use fasthack.Daemon.{Server}
use fasthack.Fleet.{
  is_fleet, agent_or_new, observe_agent, positions, in_flight, mark_leases, group_or_empty,
  group_at, by_tree, others, with_peers, larger, clusters_of, assess, fleet_of, fleet, FleetView,
}

abbrev seen_at : Text → Text → Record
seen_at agent tree = record {
  v = 1;
  ts = 4;
  agent = agent;
  cmd = codes "pytest";
  cmd_norm = codes "pytest";
  cwd_rel = [];
  tree_before = tree;
  env_fp_before = [];
  tree_after = tree;
  env_fp_after = [];
  key = [];
  policy = [];
  reason = [];
  decision = codes "MISS";
  servable = false;
  exit_code = 0;
  duration_ms = 9;
  stdout_blob = [];
  stderr_blob = [];
  source_agent = [];
  verified = none;
  tier = 0;
  read_set = none;
}

abbrev server_of : List Record → Server
server_of rs = record {
  log = [];
  store = record { servable = []; candidates = []; all = rs };
  leases = [];
  unservable = [];
  closed = [];
  next = 0;
}

abbrev apart : Server
apart = server_of (seen_at (codes "a") (codes "t") ∷ seen_at (codes "b") (codes "u") ∷ [])

unfoldable run_fleet : Server → FleetView
unfolding text text_eq is_empty text_less get put values insert_by sort_by decision_hit
    decision_miss decision_lease_wait records is_fleet agent_or_new observe_agent positions
    in_flight mark_leases group_or_empty group_at by_tree others with_peers larger clusters_of
    assess fleet_of fleet
run_fleet sv = fleet sv

-- An agent that was never seen at a tree is in no cluster, and the one cluster left is a collapse.
half_known :
    (fleet (server_of (seen_at (codes "a") (codes "t") ∷ seen_at (codes "b") [] ∷ []))).converged
    ≡ true
unfolding run_fleet
half_known = refl
