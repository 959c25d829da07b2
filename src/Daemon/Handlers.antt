-- ===== src/Daemon/Handlers.antt =====
-- internal/hp/daemon.go: the handlers that change the server and never wait.
use fasthack.Prelude.{Bool, true, false, not, ◌&&◌, Option, none, some, [], ◌==◌, if◌then◌else◌}
use fasthack.Text.{Text, text, is_empty}
use fasthack.Dict.{put}
use fasthack.Record.{Record}
use fasthack.Store.{lookup, evict}
use fasthack.Daemon.{Server, Moment}
use fasthack.Daemon.Leases.{release}
use fasthack.Daemon.Decisions.{log_record}

-- VerifyVerdict
pub record VerifyVerdict : Type 0 where
  pub key : Text
  pub ok : Bool
  pub detail : Text
  pub raw_match : Bool

-- rec.V = 1, and the time stamp where there is none
unfoldable pub stamp : Moment → Record → Record
stamp m rec = record rec { v = 1; ts = if rec.ts == 0 then m.now else rec.ts }

unfoldable pub mark_unservable : Record → Server → Server
mark_unservable rec sv =
    if not rec.servable && not (is_empty rec.key)
    then record sv { unservable = put sv.unservable rec.key true }
    else sv

-- handleRecord; where the log cannot be written it stops there
unfoldable pub handle_record : Moment → Record → Server → Server
handle_record m rec sv =
    if m.disk then release (mark_unservable rec (log_record m sv (stamp m rec))) rec.key else sv

-- handleRelease
unfoldable pub handle_release : Text → Server → Server
handle_release key sv = release sv key

unfoldable pub verify_record : Moment → VerifyVerdict → Record
verify_record m v = record {
  v = 1;
  ts = m.now;
  agent = text "verifier";
  cmd = [];
  cmd_norm = [];
  cwd_rel = [];
  tree_before = [];
  env_fp_before = [];
  tree_after = [];
  env_fp_after = [];
  key = v.key;
  policy = [];
  reason = v.detail;
  decision = text "VERIFY";
  servable = false;
  exit_code = 0;
  duration_ms = 0;
  stdout_blob = [];
  stderr_blob = [];
  source_agent = [];
  verified = some v.ok;
  tier = 0;
  read_set = none;
}

-- `if found { ... }`
abbrev pub about : Option Record → Record → Record
about none rec = rec
about (some src) rec = record rec {
  cmd = src.cmd;
  cmd_norm = src.cmd_norm;
  cwd_rel = src.cwd_rel;
  policy = src.policy;
  source_agent = src.agent;
}

-- handleVerify
unfoldable pub handle_verify : Moment → VerifyVerdict → Server → Server
handle_verify m v sv =
    let rec = about (lookup sv.store v.key) (verify_record m v) in
    if v.ok
    then log_record m sv rec
    else log_record m (record sv { store = evict sv.store v.key }) rec
