-- ===== src/Transition.antt =====
-- internal/hp/transition.go: which log records become rows of an exported corpus. The manifest of an
-- export is not modelled.
pub mod Account
pub mod Leakage
mod Tests
use fasthack.Prelude.{
  ℕ, zero, suc, ◌+◌, Bool, true, false, not, ◌&&◌, ◌||◌, Option, none, some, List, [], ◌∷◌, ◌++◌,
  leb, ◌==◌, if◌then◌else◌,
}
use fasthack.Text.{Text, text, text_eq, is_empty}
use fasthack.Dict.{Dict, get, put, values}
use fasthack.Record.{
  Record, ReadSet, decision_hit, decision_miss, decision_lease_wait, decision_passthrough,
}

-- Transition
pub record Transition : Type 0 where
  pub schema : Text
  pub ts : ℕ
  pub agent : Text
  pub tree_before : Text
  pub env_fp_before : Text
  pub cwd_rel : Text
  pub cmd : Text
  pub cmd_norm : Text
  pub tree_after : Text
  pub env_fp_after : Text
  pub exit_code : ℕ
  pub duration_ms : ℕ
  pub mutated : Bool
  pub tree_mutated : Bool
  pub env_mutated : Bool
  pub servable : Bool
  pub read_set : Option ReadSet
  pub policy : Text
  pub reason : Text
  pub key : Text
  pub stdout_blob : Text
  pub stderr_blob : Text

-- TransitionSchema
unfoldable pub transition_schema : Text
transition_schema = text "hindsight.transition/v1"

-- A transition, or why there is none.
pub data Converted : Type 0 where
  converted : Transition → Converted
  excluded : Text → Converted

unfoldable pub exclude_unknown : Text
exclude_unknown = text "decision unrecognised: excluded by default"

-- The runes of a decision that are kept in a reason.
unfoldable pub is_word_rune : ℕ → Bool
is_word_rune c =
    leb b'A' c && leb c b'Z'
    || leb b'a' c && leb c b'z'
    || leb b'0' c && leb c b'9'
    || c == b'_'
    || c == b'-'

-- The loop of `unknownDecisionReason`, with how many runes may still be kept.
unfoldable pub word_runes : ℕ → Text → Text
word_runes zero d = []
word_runes (suc n) [] = []
word_runes (suc n) (c ∷ d) =
    let kept = c ∷ word_runes n d in
    let dropped = word_runes (suc n) d in if is_word_rune c then kept else dropped

unfoldable pub unknown_of : Text → Text
unknown_of [] = exclude_unknown
unknown_of (c ∷ kept) = exclude_unknown ++ text " (" ++ c ∷ kept ++ text ")"

-- unknownDecisionReason
unfoldable pub unknown_decision_reason : Text → Text
unknown_decision_reason [] = exclude_unknown ++ text " (empty)"
unknown_decision_reason (c ∷ d) = unknown_of (word_runes 24 (c ∷ d))

-- The row of a record that was executed.
unfoldable pub row : Record → Transition
row r =
    let tree_moved = not (text_eq r.tree_after r.tree_before) in
    let env_moved = not (text_eq r.env_fp_after r.env_fp_before) in
    record {
      schema = transition_schema;
      ts = r.ts;
      agent = r.agent;
      tree_before = r.tree_before;
      env_fp_before = r.env_fp_before;
      cwd_rel = r.cwd_rel;
      cmd = r.cmd;
      cmd_norm = r.cmd_norm;
      tree_after = r.tree_after;
      env_fp_after = r.env_fp_after;
      exit_code = r.exit_code;
      duration_ms = r.duration_ms;
      mutated = tree_moved || env_moved;
      tree_mutated = tree_moved;
      env_mutated = env_moved;
      servable = r.servable;
      read_set = r.read_set;
      policy = r.policy;
      reason = r.reason;
      key = r.key;
      stdout_blob = r.stdout_blob;
      stderr_blob = r.stderr_blob;
    }

-- Behind the `switch`.
unfoldable pub executed : Record → Converted
executed r =
    if is_empty r.tree_before
      || is_empty r.tree_after
      || is_empty r.env_fp_before
      || is_empty r.env_fp_after
    then excluded (text "no observed after-state: the transition was never completed")
    else converted (row r)

-- TransitionFrom, of a record that is not nil
unfoldable pub transition_from : Record → Converted
transition_from r =
    if text_eq r.decision decision_miss
    then executed r
    else if text_eq r.decision decision_hit
    then excluded (text "decision HIT: a replay served from cache, not an execution")
    else if text_eq r.decision decision_lease_wait
    then excluded
        (text "decision LEASE_WAIT: served from a peer's in-flight execution, not an execution")
    else if text_eq r.decision decision_passthrough
    then excluded
        (text "decision PASSTHROUGH: ran unintercepted, so no state was observed around it")
    else if text_eq r.decision (text "VERIFY")
    then excluded (text "decision VERIFY: a verdict about a served record, not an execution")
    else excluded (unknown_decision_reason r.decision)

-- TransitionFilter
pub data TransitionFilter : Type 0 where
  filter_all : TransitionFilter
  filter_mutating_only : TransitionFilter
  filter_non_mutating_only : TransitionFilter

-- admits
unfoldable pub admits : TransitionFilter → Transition → Converted
admits filter_all t = converted t
admits filter_mutating_only t =
    if t.mutated
    then converted t
    else excluded (text "filtered out: non-mutating (filter=mutating-only)")
admits filter_non_mutating_only t =
    if t.mutated
    then excluded (text "filtered out: mutating (filter=non-mutating-only)")
    else converted t

-- ExportStats
pub record ExportStats : Type 0 where
  pub scanned : ℕ
  pub exported : ℕ
  pub reasons : Dict ℕ

abbrev pub count_of : Option ℕ → ℕ
count_of none = 0
count_of (some n) = n

-- drop
unfoldable pub drop : ExportStats → Text → ExportStats
drop st why = record st { reasons = put st.reasons why (count_of (get st.reasons why) + 1) }

unfoldable pub sum : List ℕ → ℕ
sum [] = 0
sum (n ∷ ns) = n + sum ns

-- ExcludedTotal
unfoldable pub excluded_total : ExportStats → ℕ
excluded_total st = sum (values st.reasons)

-- Balanced
unfoldable pub balanced : ExportStats → Bool
balanced st = st.scanned == st.exported + excluded_total st

-- TransitionFrom, then the filter.
abbrev pub filtered : TransitionFilter → Converted → Converted
filtered f (converted t) = admits f t
filtered f (excluded why) = excluded why

-- A line that is not blank: a record, or one that does not parse.
abbrev pub line_of : TransitionFilter → Option Record → Converted
line_of f none = excluded (text "malformed: log line did not parse as a record")
line_of f (some r) = filtered f (transition_from r)

-- What becomes of the line, on the rows and the account of those before it.
abbrev pub account : Converted → List Transition × ExportStats → List Transition × ExportStats
account (converted t) (out, st) = (out ++ t ∷ [], record st { exported = st.exported + 1 })
account (excluded why) (out, st) = (out, drop st why)

abbrev pub seen : List Transition × ExportStats → List Transition × ExportStats
seen (out, st) = (out, record st { scanned = st.scanned + 1 })

-- The loop of `ScanTransitions`.
unfoldable pub scan_lines :
    TransitionFilter
    → List Transition × ExportStats
    → List (Option Record)
    → List Transition × ExportStats
scan_lines f acc [] = acc
scan_lines f acc (line ∷ lines) = scan_lines f (account (line_of f line) (seen acc)) lines

abbrev pub no_rows : List Transition × ExportStats
no_rows = ([], record { scanned = 0; exported = 0; reasons = [] })

-- ScanTransitions: `none` where the accounting does not balance
unfoldable pub scan_transitions :
    TransitionFilter → List (Option Record) → Option (List Transition × ExportStats)
scan_transitions f lines =
    let (out, st) = scan_lines f no_rows lines in if balanced st then some (out, st) else none
