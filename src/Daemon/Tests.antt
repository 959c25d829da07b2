-- ===== src/Daemon/Tests.antt =====
-- A daemon over a small log: a hit, a wait that a record ends, an eviction that a restart forgets.
use fasthack.Prelude.{◌≡◌, refl, true, false, Option, none, some, List, [], ◌∷◌}
use fasthack.Text.{codes, text, text_eq, is_empty}
use fasthack.Dict.{get, put, remove}
use fasthack.Record.{Record, decision_hit, decision_miss, decision_lease_wait}
use fasthack.Store.{
  cand_key, cand_key_of, list_at, without_key, write_back, drop_servable, index, ingest,
  replay_from, open_store, candidates_of, append, lookup, evict, records,
}
use fasthack.Store.Index.{open_store-IsIndexed}
use fasthack.Scope.{Repo, printed}
use fasthack.Daemon.{LookupReq, Server, Moment, new_server}
use fasthack.Daemon.Leases.{acquire, release, drop_lease, peer_lease, is_closed}
use fasthack.Daemon.Decisions.{
  hit_resp, miss_resp, log_record, decision_record, from_source, emit_decision, emit_scoped_hit,
}
use fasthack.Daemon.Lookup.{
  newest_first, last_candidates, promote, try_candidates, try_scope, answered, miss, handle_lookup,
  resume_woken, resume_expired,
}
use fasthack.Daemon.Handlers.{
  VerifyVerdict, stamp, mark_unservable, handle_record, handle_release, verify_record,
  handle_verify,
}
use fasthack.Daemon.Stats.{no_stats, count_agent, count_decision, count_records, stats}
use fasthack.Daemon.Steps.{System, joined, looks_up, IsReachable, starts, goes_on}
use fasthack.Daemon.Sound.{IsSound, reachable-IsSound}
use fasthack.Daemon.Served.{IsJustified, handle_lookup-IsJustified}
use fasthack.Daemon.SingleFlight.{IsOneFlight, handle_lookup-IsOneFlight}
use fasthack.Daemon.Coalesce.{handle_lookup-handle_record}
use fasthack.Daemon.Restarts.{IsCurrent, handle_record-IsCurrent, handle_verify-restart}
use fasthack.Daemon.Counts.{IsCountOf, stats-IsCountOf}

abbrev blank_record : Record
blank_record = record {
  v = 1;
  ts = 0;
  agent = [];
  cmd = [];
  cmd_norm = [];
  cwd_rel = [];
  tree_before = [];
  env_fp_before = [];
  tree_after = [];
  env_fp_after = [];
  key = [];
  policy = [];
  reason = [];
  decision = [];
  servable = false;
  exit_code = 0;
  duration_ms = 0;
  stdout_blob = [];
  stderr_blob = [];
  source_agent = [];
  verified = none;
  tier = 0;
  read_set = none;
}

abbrev pytest_run : Record
pytest_run = record blank_record {
  key = codes "k1";
  cmd_norm = codes "pytest";
  servable = true;
  exit_code = 1;
  agent = codes "a";
  decision = codes "MISS";
  duration_ms = 900;
}

abbrev small_log : List (Option Record)
small_log = some pytest_run ∷ none ∷ []

abbrev request : LookupReq
request = record {
  key = codes "k1";
  agent = codes "b";
  cmd = codes "pytest";
  cmd_norm = codes "pytest";
  cwd_rel = [];
  tree = codes "t";
  env_fp = [];
  policy = codes "SERVE";
  reason = [];
  serve = true;
  repo_root = [];
}

abbrev moment : Moment
moment = record { now = 5; disk = true }

abbrev repo : Repo
repo = record {
  root = codes "/repo";
  exists = λ p. true;
  diff_names = λ a b. printed [];
  added_names = λ a b. printed [];
}

unfoldable run_daemon : List (Option Record) → Server
unfolding text text_eq is_empty get put remove decision_hit decision_miss decision_lease_wait
    cand_key cand_key_of list_at without_key write_back drop_servable index ingest replay_from
    open_store candidates_of append lookup evict records acquire release drop_lease peer_lease
    is_closed hit_resp miss_resp log_record decision_record from_source emit_decision
    emit_scoped_hit newest_first last_candidates promote try_candidates try_scope miss handle_lookup
    resume_woken resume_expired stamp mark_unservable handle_record handle_release verify_record
    handle_verify count_agent count_decision count_records stats new_server
run_daemon log = new_server log

hit :
    (handle_lookup repo moment request (new_server small_log)).0 ≡ answered (hit_resp pytest_run 0)
unfolding run_daemon
hit = refl

abbrev server : Server
server = record {
  log = small_log;
  store = open_store small_log;
  leases = (codes "k2", record { agent = codes "a"; at = 1; id = 0 }) ∷ [];
  unservable = [];
  closed = [];
  next = 1;
}

abbrev waiting : LookupReq
waiting = record request { key = codes "k2" }

abbrev sent : Record
sent = record pytest_run { key = codes "k2" }

handle_lookup-IsJustified_example :
    IsJustified repo request (handle_lookup repo moment request server).0
handle_lookup-IsJustified_example =
    handle_lookup-IsJustified repo moment request server (open_store-IsIndexed small_log)

handle_lookup-IsOneFlight_example :
    IsOneFlight waiting server (handle_lookup repo moment waiting server)
handle_lookup-IsOneFlight_example = handle_lookup-IsOneFlight repo moment waiting server

handle_lookup-handle_record_example :
    let sv' = handle_record moment sent (handle_lookup repo moment waiting server).1 in
    (is_closed sv'.closed 0 ≡ true)
    × ((resume_woken repo moment waiting 40 sv').0 ≡ answered (hit_resp (stamp moment sent) 40))
unfolding run_daemon
handle_lookup-handle_record_example =
    handle_lookup-handle_record repo moment moment moment waiting sent server 0 40 refl refl refl
      refl refl refl

handle_record-IsCurrent_example : IsCurrent (handle_record moment sent server)
handle_record-IsCurrent_example = handle_record-IsCurrent moment sent server refl

abbrev divergence : VerifyVerdict
divergence = record { key = codes "k1"; ok = false; detail = []; raw_match = false }

handle_verify-restart_example :
    (lookup (handle_verify moment divergence server).store (codes "k1") ≡ none)
    × (lookup (open_store (handle_verify moment divergence server).log) (codes "k1")
        ≡ lookup (open_store small_log) (codes "k1"))
unfolding text_eq
handle_verify-restart_example = handle_verify-restart moment divergence server (codes "k1") refl

-- The restarted daemon serves the record that diverged.
served_again :
    (handle_lookup repo moment request (new_server (handle_verify moment divergence server).log)).0
    ≡ answered (hit_resp pytest_run 0)
unfolding run_daemon
served_again = refl

stats-IsCountOf_example : IsCountOf (records server.store) no_stats (stats server).0
stats-IsCountOf_example = stats-IsCountOf server

abbrev missing : LookupReq
missing = record request { key = codes "k3" }

abbrev started : System
started = record { server = new_server small_log; waiting = [] }

-- One request has missed and another one waits for it.
abbrev busy : System
busy =
    let s : System = record {
      server = (handle_lookup repo moment missing started.server).1;
      waiting = joined missing (handle_lookup repo moment missing started.server).0 [];
    } in
    record {
      server = (handle_lookup repo moment missing s.server).1;
      waiting = joined missing (handle_lookup repo moment missing s.server).0 s.waiting;
    }

one_waits : busy.waiting ≡ record { req = missing; id = 0 } ∷ []
unfolding run_daemon
one_waits = refl

busy-IsReachable : IsReachable (λ root. repo) busy
busy-IsReachable =
    goes_on _ _ (goes_on _ _ (starts small_log) (looks_up started moment missing))
      (looks_up _ moment missing)

reachable-IsSound_example : IsSound busy.server
reachable-IsSound_example = reachable-IsSound (λ root. repo) busy busy-IsReachable
