-- ===== src/Hook/EndToEndTests.antt =====
-- The hook before a daemon that has a record of the command.
use mathlib.Core.Option.{some-injective}
use fasthack.Prelude.{◌≡◌, refl, subst, true, Option, none, some, [], ◌∷◌}
use fasthack.Text.{Text, codes, text, text_eq, is_empty}
use fasthack.Policy.Run.{run_classify}
use fasthack.Dict.{get, put, remove}
use fasthack.Key.{
  State, key, key_version, key_text, key_line, fields_from, fields, join_fields, normalize_command,
}
use fasthack.Record.{Record, decision_hit, decision_miss, decision_lease_wait}
use fasthack.Fastpath.{always_cheap, first_word, known_fast}
use fasthack.Scope.{Repo, printed}
use fasthack.Store.{
  cand_key, cand_key_of, list_at, without_key, write_back, drop_servable, index, ingest,
  replay_from, open_store, append, lookup,
}
use fasthack.Store.Index.{open_store-IsIndexed}
use fasthack.Daemon.{LookupReq, LookupResp, Moment, Server}
use fasthack.Daemon.Decisions.{
  hit_resp, miss_resp, log_record, decision_record, from_source, emit_decision,
}
use fasthack.Daemon.Lookup.{Outcome, answered, blocked, handle_lookup}
use fasthack.Daemon.Served.{IsJustified, handle_lookup-IsJustified}
use fasthack.Hook.Flow.{
  Surroundings, rewrites, served_command, served_note, request, intercept, cmd_hook,
}
use fasthack.Hook.EndToEnd.{IsHandled, cmd_hook-IsHandled}

abbrev measured : State
measured = record { tree = codes "t"; env_fp = codes "e"; env_complete = true }

abbrev pytest_run : Record
pytest_run = record {
  v = 1;
  ts = 0;
  agent = codes "a1";
  cmd = codes "pytest -q";
  cmd_norm = codes "pytest -q";
  cwd_rel = codes ".";
  tree_before = codes "t";
  env_fp_before = codes "e";
  tree_after = codes "t";
  env_fp_after = codes "e";
  key = key (λ t. t) measured (codes ".") (codes "pytest -q");
  policy = codes "SERVE";
  reason = [];
  decision = codes "MISS";
  servable = true;
  exit_code = 1;
  duration_ms = 900;
  stdout_blob = codes "sha256:abcd";
  stderr_blob = codes "sha256:e";
  source_agent = [];
  verified = none;
  tier = 0;
  read_set = none;
}

abbrev repo : Repo
repo = record {
  root = codes "/repo";
  exists = λ p. true;
  diff_names = λ a b. printed [];
  added_names = λ a b. printed [];
}

abbrev moment : Moment
moment = record { now = 5; disk = true }

abbrev server : Server
server = record {
  log = some pytest_run ∷ [];
  store = open_store (some pytest_run ∷ []);
  leases = [];
  unservable = [];
  closed = [];
  next = 0;
}

-- A request that would wait is left without an answer.
abbrev reply : Outcome → Option LookupResp
reply (answered resp) = some resp
reply (blocked id) = none

abbrev around : Surroundings
around = record {
  enabled = true;
  serve_enabled = true;
  agent = codes "a2";
  forced = [];
  payload = some (codes "pytest -q");
  memo = [];
  floor = 500;
  root = some (codes "/repo");
  state = some measured;
  cwd_rel = codes ".";
  home = codes "/h";
  self = some (codes "/bin/hindsight");
  digest = λ t. t;
  answer = λ req. reply (handle_lookup repo moment req server).0;
}

reply-IsJustified :
    (req : LookupReq) (o : Outcome) (resp : LookupResp)
    → IsJustified repo req o
    → reply o ≡ some resp
    → IsJustified repo req (answered resp)
reply-IsJustified req (blocked id) resp j h = absurd (cc h)
reply-IsJustified req (answered r) resp j h =
    subst (λ x. IsJustified repo req (answered x)) (some-injective r resp h) j

server-IsJustified :
    (req : LookupReq) (resp : LookupResp)
    → around.answer req ≡ some resp
    → IsJustified repo req (answered resp)
server-IsJustified req resp h =
    reply-IsJustified req (handle_lookup repo moment req server).0 resp
      (handle_lookup-IsJustified repo moment req server
        (open_store-IsIndexed (some pytest_run ∷ [])))
      h

abbrev served : Text
served = served_command (codes "/h") (hit_resp pytest_run 0)

around-served : cmd_hook 2 around ≡ rewrites served (served_note (hit_resp pytest_run 0))
unfolding run_classify cmd_hook intercept request always_cheap first_word known_fast fields_from
    fields join_fields normalize_command key key_version key_text key_line text text_eq is_empty get
    put remove decision_hit decision_miss decision_lease_wait cand_key cand_key_of list_at
    without_key write_back drop_servable index ingest replay_from open_store append lookup hit_resp
    miss_resp log_record decision_record from_source emit_decision handle_lookup
around-served = refl

cmd_hook-IsHandled_example :
    (cmd : Text) × (some (codes "pytest -q") ≡ some cmd) × IsHandled repo around cmd served
cmd_hook-IsHandled_example =
    cmd_hook-IsHandled repo 2 around server-IsJustified served (served_note (hit_resp pytest_run 0))
      around-served
