-- ===== src/Record.antt =====
-- The log line of internal/hp/store.go, and the gate that cmd/hindsight/record.go puts before it.
-- A float64 time stamp is a number of milliseconds, and an exit code is not negative; JSON and the
-- file system are not modelled.
pub mod Gate
pub mod Output
use fasthack.Prelude.{ℕ, Bool, Option, List}
use fasthack.Text.{Text, text}

-- ReadSet of internal/hp/readset.go
pub record ReadSet : Type 0 where
  pub method : Text
  pub paths : List Text
  pub test_globs : List Text
  pub policy : Text
  pub tool : Text
  pub processes : ℕ

pub record Record : Type 0 where
  pub v : ℕ
  pub ts : ℕ
  pub agent : Text
  pub cmd : Text
  pub cmd_norm : Text
  pub cwd_rel : Text
  pub tree_before : Text
  pub env_fp_before : Text
  pub tree_after : Text
  pub env_fp_after : Text
  pub key : Text
  pub policy : Text
  pub reason : Text
  pub decision : Text
  pub servable : Bool
  pub exit_code : ℕ
  pub duration_ms : ℕ
  pub stdout_blob : Text
  pub stderr_blob : Text
  pub source_agent : Text
  pub verified : Option Bool
  pub tier : ℕ
  pub read_set : Option ReadSet

-- DecisionHit
unfoldable pub decision_hit : Text
decision_hit = text "HIT"

-- DecisionMiss
unfoldable pub decision_miss : Text
decision_miss = text "MISS"

-- DecisionLeaseWait
unfoldable pub decision_lease_wait : Text
decision_lease_wait = text "LEASE_WAIT"

-- DecisionPassthrough
unfoldable pub decision_passthrough : Text
decision_passthrough = text "PASSTHROUGH"
