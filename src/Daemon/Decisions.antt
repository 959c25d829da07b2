-- ===== src/Daemon/Decisions.antt =====
-- internal/hp/daemon.go: the answers, and the decisions that the daemon logs itself.
use fasthack.Prelude.{ℕ, false, Option, none, some, [], ◌++◌, if◌then◌else◌}
use fasthack.Text.{Text, text, text_eq}
use fasthack.Text.Order.{itoa}
use fasthack.Record.{Record, decision_hit, decision_miss}
use fasthack.Store.{append}
use fasthack.Scope.{ScopeDecision}
use fasthack.Daemon.{LookupReq, LookupResp, Server, Moment}

-- hitResp
unfoldable pub hit_resp : Record → ℕ → LookupResp
hit_resp rec waited = record {
  decision = decision_hit;
  exit_code = rec.exit_code;
  stdout_blob = rec.stdout_blob;
  stderr_blob = rec.stderr_blob;
  source_agent = rec.agent;
  duration_ms = rec.duration_ms;
  tier = 0;
  scope_reason = [];
  waited_ms = waited;
}

-- LookupResp{Decision: DecisionMiss, WaitedMS: waited}
unfoldable pub miss_resp : ℕ → LookupResp
miss_resp waited = record {
  decision = decision_miss;
  exit_code = 0;
  stdout_blob = [];
  stderr_blob = [];
  source_agent = [];
  duration_ms = 0;
  tier = 0;
  scope_reason = [];
  waited_ms = waited;
}

-- store.Append, which leaves the store alone where the log cannot be written
unfoldable pub log_record : Moment → Server → Record → Server
log_record m sv rec =
    if m.disk
    then record sv {
      log = (append (sv.log, sv.store) rec).0;
      store = (append (sv.log, sv.store) rec).1;
    }
    else sv

-- The fields that both kinds of decisions fill from the request.
unfoldable pub decision_record : Moment → LookupReq → Text → Record
decision_record m req decision = record {
  v = 1;
  ts = m.now;
  agent = req.agent;
  cmd = req.cmd;
  cmd_norm = req.cmd_norm;
  cwd_rel = req.cwd_rel;
  tree_before = req.tree;
  env_fp_before = req.env_fp;
  tree_after = [];
  env_fp_after = [];
  key = req.key;
  policy = req.policy;
  reason = req.reason;
  decision = decision;
  servable = false;
  exit_code = 0;
  duration_ms = 0;
  stdout_blob = [];
  stderr_blob = [];
  source_agent = [];
  verified = none;
  tier = 0;
  read_set = none;
}

unfoldable pub from_source : Record → Record → Record
from_source src rec = record rec {
  duration_ms = src.duration_ms;
  exit_code = src.exit_code;
  stdout_blob = src.stdout_blob;
  stderr_blob = src.stderr_blob;
  source_agent = src.agent;
}

abbrev pub from_source_if : Option Record → Record → Record
from_source_if none rec = rec
from_source_if (some src) rec = from_source src rec

-- emitDecision
unfoldable pub emit_decision : Moment → LookupReq → Text → Option Record → Server → Server
emit_decision m req decision src sv =
    if text_eq decision decision_miss
    then sv
    else log_record m sv (from_source_if src (decision_record m req decision))

-- emitScopedHit
unfoldable pub emit_scoped_hit : Moment → LookupReq → Record → ScopeDecision → ℕ → Server → Server
emit_scoped_hit m req src dec tier sv =
    log_record m sv (record (from_source src (decision_record m req decision_hit)) {
      tier = tier;
      reason = text "tier-" ++ itoa tier ++ text ": " ++ dec.reason;
    })
