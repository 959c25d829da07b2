-- ===== src/Transition/Tests.antt =====
-- An export of four lines.
use fasthack.Prelude.{◌≡◌, refl, false, Option, none, some, List, [], ◌∷◌, ◌+◌, length}
use fasthack.Text.{codes, text, text_eq, is_empty}
use fasthack.Dict.{get, put, values}
use fasthack.Record.{Record, decision_hit, decision_miss, decision_lease_wait, decision_passthrough}
use fasthack.Transition.{
  Transition, converted, excluded, TransitionFilter, filter_all, filter_mutating_only,
  filter_non_mutating_only, ExportStats, transition_schema, exclude_unknown, is_word_rune,
  word_runes, unknown_of, unknown_decision_reason, row, executed, transition_from, admits, drop,
  sum, excluded_total, balanced, line_of, scan_lines, scan_transitions,
}
use fasthack.Transition.Account.{rows_of, scan_transitions-balances}
use fasthack.Transition.Leakage.{IsRowOf, IsAdmitted, line_of-IsRowOf}

abbrev edit : Record
edit = record {
  v = 1;
  ts = 0;
  agent = codes "a";
  cmd = codes "make";
  cmd_norm = codes "make";
  cwd_rel = [];
  tree_before = codes "t0";
  env_fp_before = codes "e0";
  tree_after = codes "t1";
  env_fp_after = codes "e0";
  key = codes "k";
  policy = codes "RECORD_ONLY";
  reason = [];
  decision = codes "MISS";
  servable = false;
  exit_code = 2;
  duration_ms = 10;
  stdout_blob = [];
  stderr_blob = [];
  source_agent = [];
  verified = none;
  tier = 0;
  read_set = none;
}

abbrev log_lines : List (Option Record)
log_lines =
    some edit
    ∷ none
    ∷ some (record edit { decision = codes "HIT" })
    ∷ some (record edit { decision = codes "WHAT?" })
    ∷ []

unfoldable run_export :
    TransitionFilter → List (Option Record) → Option (List Transition × ExportStats)
unfolding text text_eq is_empty get put values decision_hit decision_miss decision_lease_wait
    decision_passthrough transition_schema exclude_unknown is_word_rune word_runes unknown_of
    unknown_decision_reason row executed transition_from admits drop sum excluded_total balanced
    scan_lines scan_transitions
run_export f lines = scan_transitions f lines

exported : length (rows_of filter_all log_lines) ≡ 1
unfolding run_export rows_of
exported = refl

unknown :
    transition_from (record edit { decision = codes "WHAT?" })
    ≡ excluded (codes "decision unrecognised: excluded by default (WHAT)")
unfolding run_export
unknown = refl

edit-converted : line_of filter_mutating_only (some edit) ≡ converted (row edit)
unfolding run_export
edit-converted = refl

scan_transitions-balances_example :
    (st : ExportStats) × (scan_transitions filter_non_mutating_only log_lines
      ≡ some (rows_of filter_non_mutating_only log_lines, st))
    × (st.scanned ≡ 4)
    × (st.exported ≡ length (rows_of filter_non_mutating_only log_lines))
    × (st.scanned ≡ st.exported + excluded_total st)
scan_transitions-balances_example = scan_transitions-balances filter_non_mutating_only log_lines

line_of-IsRowOf_example : IsRowOf edit (row edit) × IsAdmitted filter_mutating_only (row edit)
line_of-IsRowOf_example = line_of-IsRowOf filter_mutating_only edit (row edit) edit-converted
