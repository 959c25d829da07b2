-- ===== src/Speculate/Tests.antt =====
-- Speculation over a small log: two agents run a suite at two trees, and the warmer runs it at one.
use fasthack.Prelude.{ℕ, ◌≡◌, refl, true, Option, none, some, List, [], ◌∷◌, map}
use fasthack.Text.{Text, codes}
use fasthack.Text.Order.{text_less, itoa, digits_onto}
use fasthack.Dict.{get, put, remove, values}
use fasthack.Sort.{insert_by, sort_by}
use fasthack.Policy.Run.{run_classify}
use fasthack.Key.{key, key_version, key_text, key_line}
use fasthack.Record.{Record, decision_hit, decision_miss, decision_lease_wait}
use fasthack.Store.{lookup, records}
use fasthack.Daemon.{Server}
use fasthack.Fleet.{plural}
use fasthack.Speculate.{speculator_agent}
use fasthack.Speculate.Learn.{
  is_attempt, is_demand, evidence_or_new, observe_cmd, site_id, site_or_new, visit, without_agent,
  leave, with_agent, arrive, note_attempt, note_demand, learn_record, learn_records, empty_model,
  spelled, cmd_before, later_site, summary, learn_from_log,
}
use fasthack.Speculate.Suggest.{
  Suggestion, Setup, less_ratio, capped, chance, times, ms_text, reason_text, speculation_blocked,
  suggestion, is_taken, site_key, suggest_verdict, is_idle, consider, over_cmds, over_sites,
  worth_more, suggest_from, suggestions,
}
use fasthack.Speculate.Ledger.{
  count_own, count_served, count_record, count_ledger, hit_rate, stats_of, spec_stats,
}
use fasthack.Prelude.{All, ◌≤◌, length}
use fasthack.Speculate.Useful.{IsUseful, Returns, IsClassified, suggestions-IsUseful}
use fasthack.Speculate.Bounds.{IsBounded, suggestions_bounds}
use fasthack.Speculate.Placed.{lists, is_at, last_site, learn_records-IsPlaced_last}
use fasthack.Speculate.Sources.{members, learn_from_log-members}

abbrev base_record : Record
base_record = record {
  v = 1;
  ts = 0;
  agent = codes "a";
  cmd = codes "pytest";
  cmd_norm = codes "pytest";
  cwd_rel = [];
  tree_before = codes "t1";
  env_fp_before = codes "e";
  tree_after = codes "t1";
  env_fp_after = codes "e";
  key = codes "k1";
  policy = codes "SERVE";
  reason = [];
  decision = codes "MISS";
  servable = true;
  exit_code = 0;
  duration_ms = 900;
  stdout_blob = [];
  stderr_blob = [];
  source_agent = [];
  verified = none;
  tier = 0;
  read_set = none;
}

abbrev second_run : Record
second_run = record base_record {
  agent = codes "b";
  tree_before = codes "t2";
  key = codes "k2";
  duration_ms = 1400;
}

abbrev own_run : Record
own_run = record base_record { agent = codes "speculator"; key = codes "k3" }

abbrev moved_on : Record
moved_on = record base_record {
  tree_before = codes "t3";
  cmd = codes "go vet";
  cmd_norm = codes "go vet";
  key = codes "k4";
}

abbrev small_log : List Record
small_log = base_record ∷ second_run ∷ own_run ∷ moved_on ∷ []

abbrev server : Server
server = record {
  log = [];
  store = record { servable = []; candidates = []; all = small_log };
  leases = [];
  unservable = [];
  closed = [];
  next = 0;
}

-- The digest of the tests is the text itself.
abbrev setup : Setup
setup = record { fuel = 20; digest = λ t. t; floor = 500; seconds = λ n. codes "1.4" }

unfoldable run_suggest : Setup → Server → ℕ → Option (List Suggestion)
unfolding run_classify text_less itoa digits_onto get put remove values insert_by sort_by key
    key_version key_text key_line decision_hit decision_miss decision_lease_wait lookup records
    plural speculator_agent is_attempt is_demand evidence_or_new observe_cmd site_id site_or_new
    visit without_agent leave with_agent arrive note_attempt note_demand learn_record learn_records
    spelled cmd_before later_site summary learn_from_log less_ratio capped chance times ms_text
    reason_text speculation_blocked suggestion is_taken site_key suggest_verdict is_idle consider
    over_cmds over_sites worth_more suggest_from suggestions count_own count_served count_record
    count_ledger hit_rate stats_of spec_stats
run_suggest w sv limit = suggestions w sv limit

abbrev trees_of : Option (List Suggestion) → List Text
trees_of none = []
trees_of (some out) = map (λ s. s.tree) out

-- The suite is worth a run at the tree where it was not run yet, and at the two whose key it misses.
suggested_trees : trees_of (suggestions setup server 0) ≡ codes "t2" ∷ codes "t3" ∷ codes "t1" ∷ []
unfolding run_suggest
suggested_trees = refl

all-IsClassified : All (IsClassified setup) (learn_from_log (records server.store)).cmds
unfolding run_suggest
all-IsClassified = ((_, refl), ((_, refl), tt))

suggestions-IsUseful_example : Returns (IsUseful setup server) (suggestions setup server 0)
suggestions-IsUseful_example = suggestions-IsUseful setup server 0 all-IsClassified

suggestions_bounds_example :
    (out : List Suggestion) × (suggestions setup server 2 ≡ some out)
    × (length out ≤ 2)
    × All (IsBounded small_log) out
unfolding records
suggestions_bounds_example = suggestions_bounds setup server 2 all-IsClassified

learn_records-IsPlaced_last_example :
    lists (codes "a") (get (learn_records small_log empty_model).by_site (codes "t3"))
    ≡ is_at (codes "t3") (last_site (codes "a") small_log none)
learn_records-IsPlaced_last_example = learn_records-IsPlaced_last small_log (codes "t3") (codes "a")

learn_from_log-members_example :
    ((learn_from_log small_log).cmds ≡ (learn_from_log (members small_log)).cmds)
    × ((learn_from_log small_log).sites ≡ (learn_from_log (members small_log)).sites)
    × ((learn_from_log small_log).trees ≡ (learn_from_log (members small_log)).trees)
learn_from_log-members_example = learn_from_log-members small_log
