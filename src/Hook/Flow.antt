-- ===== src/Hook/Flow.antt =====
-- cmd/hindsight/hook.go: the decisions of `cmdHook`. The environment, the payload, the workspace and
-- the daemon's answer are in `Surroundings`; the debug output and the sampled re-execution that a hit
-- may start are left out.
use fasthack.Prelude.{
  ℕ, Bool, true, false, ◌&&◌, Option, none, some, [], ◌∷◌, ◌++◌, ◌==◌, if◌then◌else◌,
}
use fasthack.Text.{Text, text, text_eq, is_empty, has_prefix}
use fasthack.Text.PathName.{slash, join}
use fasthack.Text.Order.{itoa}
use fasthack.Text.Base64.{bytes_of, base64}
use fasthack.Policy.Heads.{Policy, passthrough, record_only, serve, to_string, Verdict}
use fasthack.Policy.Classify.{classify}
use fasthack.Key.{State, normalize_command, key}
use fasthack.Record.{decision_hit}
use fasthack.Fastpath.{Fastpath, known_fast}
use fasthack.Daemon.{LookupReq, LookupResp}
use fasthack.Hook.{shell_quote}

-- What the hook finds: the switches and names in its environment, the payload's command (nothing
-- where it does not parse), the memo and its floor, the workspace's root, state and directory, the
-- home of the store, the path of the program, the digest, and what the daemon answers (nothing where
-- it cannot be reached).
pub record Surroundings : Type 0 where
  pub enabled : Bool
  pub serve_enabled : Bool
  pub agent : Text
  pub forced : Text
  pub payload : Option Text
  pub memo : Fastpath
  pub floor : ℕ
  pub root : Option Text
  pub state : Option State
  pub cwd_rel : Text
  pub home : Text
  pub self : Option Text
  pub digest : Text → Text
  pub answer : LookupReq → Option LookupResp

-- The command is left alone, or replaced, with a note; or `Classify` does not return.
pub data HookOutcome : Type 0 where
  passes : HookOutcome
  rewrites : Text → Text → HookOutcome
  hangs : HookOutcome

-- strings.TrimPrefix(id, "sha256:")
unfoldable pub without_prefix : Text → Text → Text
without_prefix [] s = s
without_prefix (p ∷ ps) [] = []
without_prefix (p ∷ ps) (c ∷ s) = without_prefix ps s

unfoldable pub hash_of : Text → Text
hash_of id = if has_prefix (text "sha256:") id then without_prefix (text "sha256:") id else id

unfoldable pub blob_name : Text → Text
blob_name [] = []
blob_name (c ∷ []) = c ∷ []
blob_name (c ∷ d ∷ h) = c ∷ d ∷ slash ++ c ∷ d ∷ h

-- BlobPath
unfoldable pub blob_path : Text → Text → Text
blob_path home id = join home (text "blobs/" ++ blob_name (hash_of id))

-- The command that serves a hit.
unfoldable pub served_command : Text → LookupResp → Text
served_command home resp =
    text "cat "
    ++ shell_quote (blob_path home resp.stdout_blob)
    ++ text "; cat "
    ++ shell_quote (blob_path home resp.stderr_blob)
    ++ text " >&2; exit "
    ++ itoa resp.exit_code

unfoldable pub served_note : LookupResp → Text
served_note resp =
    let note =
      text "hindsight: served from "
      ++ resp.source_agent
      ++ text " ("
      ++ itoa resp.duration_ms
      ++ text "ms deleted)" in
    if resp.tier == 1 then note ++ text " [tier-1: " ++ resp.scope_reason ++ text "]" else note

-- policy == hp.SERVE
abbrev pub is_serve : Policy → Bool
is_serve serve = true
is_serve p = false

module _ (w : Surroundings) (cmd : Text) where
  -- The request that goes to the daemon.
  unfoldable pub request : Verdict → Text → State → LookupReq
  request (p, reason) root st = record {
    key = key w.digest st w.cwd_rel (normalize_command cmd);
    agent = w.agent;
    cmd = cmd;
    cmd_norm = normalize_command cmd;
    cwd_rel = w.cwd_rel;
    tree = st.tree;
    env_fp = st.env_fp;
    policy = to_string p;
    reason = reason;
    serve = w.serve_enabled && is_serve p;
    repo_root = root;
  }

  -- The command that records a miss.
  unfoldable pub record_command : Text → LookupReq → Text
  record_command self req =
      shell_quote self
      ++ text " record --key "
      ++ shell_quote req.key
      ++ text " --tree "
      ++ shell_quote req.tree
      ++ text " --envfp "
      ++ shell_quote req.env_fp
      ++ text " --policy "
      ++ shell_quote req.policy
      ++ text " --cwdrel "
      ++ shell_quote req.cwd_rel
      ++ text " --b64 "
      ++ base64 (bytes_of cmd)

  abbrev pub on_miss : LookupReq → Option Text → HookOutcome
  on_miss req none = passes
  on_miss req (some self) = rewrites (record_command self req) (text "hindsight: recording")

  abbrev pub on_answer : LookupReq → Option LookupResp → HookOutcome
  on_answer req none = passes
  on_answer req (some resp) =
      if text_eq resp.decision decision_hit
      then rewrites (served_command w.home resp) (served_note resp)
      else on_miss req w.self

  abbrev pub on_state : Verdict → Text → Option State → HookOutcome
  on_state v root none = passes
  on_state v root (some st) =
      if st.env_complete
      then on_answer (request v root st) (w.answer (request v root st))
      else passes

  abbrev pub on_root : Verdict → Option Text → HookOutcome
  on_root v none = passes
  on_root v (some root) = on_state v root w.state

  -- From the duration memo on.
  unfoldable pub intercept : Verdict → HookOutcome
  intercept v =
      if known_fast w.memo (normalize_command cmd) w.floor then passes else on_root v w.root

  abbrev pub on_verdict : Option Verdict → HookOutcome
  on_verdict none = hangs
  on_verdict (some (passthrough, reason)) = passes
  on_verdict (some (record_only, reason)) = intercept (record_only, reason)
  on_verdict (some (serve, reason)) = intercept (serve, reason)

module _ (fuel : ℕ) (w : Surroundings) where
  abbrev pub on_payload : Option Text → HookOutcome
  on_payload none = passes
  on_payload (some cmd) =
      if is_empty w.forced
      then on_verdict w cmd (classify fuel cmd)
      else rewrites w.forced (text "hindsight selftest")

  -- cmdHook
  unfoldable pub cmd_hook : HookOutcome
  cmd_hook = if w.enabled then on_payload w.payload else passes
