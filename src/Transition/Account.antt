-- ===== src/Transition/Account.antt =====
-- internal/hp/transition.go: the accounting of `ScanTransitions`.
use fasthack.Prelude.{
  ℕ, ◌+◌, ◌≡◌, refl, sym, ◌∙◌, inl, inr, Option, some, List, [], ◌∷◌, ◌++◌, arith, Bool-cases,
  length, length-append, append-nil, append_assoc,
}
use fasthack.Text.{Text, text_eq}
use fasthack.Dict.{Dict, get, put, values}
use fasthack.Record.{Record}
use fasthack.Transition.{
  drop, Transition, Converted, converted, excluded, TransitionFilter, ExportStats, count_of, sum,
  excluded_total, balanced, line_of, account, seen, scan_lines, no_rows, scan_transitions,
}

-- Counting one more under a reason adds one to the total.
sum-put :
    (m : Dict ℕ) (why : Text)
    → sum (values (put m why (count_of (get m why) + 1))) ≡ sum (values m) + 1
unfolding sum values put get
sum-put [] why = omega arith
sum-put ((j, n) ∷ m) why = elim (Bool-cases (text_eq j why)) [
  | inl e ↦ rw e (omega arith)
  | inr e ↦ rw e (omega (arith, sum-put m why))
]

abbrev pub row_of : Converted → List Transition → List Transition
row_of (converted t) later = t ∷ later
row_of (excluded why) later = later

-- The rows that the lines give, in their order.
unfoldable pub rows_of : TransitionFilter → List (Option Record) → List Transition
rows_of f [] = []
rows_of f (line ∷ lines) = row_of (line_of f line) (rows_of f lines)

-- The account is right so far.
record IsAccounted (out : List Transition) (st : ExportStats) : Type 0 where
  total : st.scanned ≡ st.exported + excluded_total st
  listed : length out ≡ st.exported

account-IsAccounted :
    (c : Converted) (out : List Transition) (st : ExportStats)
    → IsAccounted out st
    → IsAccounted (account c (seen (out, st))).0 (account c (seen (out, st))).1
unfolding excluded_total drop
account-IsAccounted (converted t) out st a = record {
  total = omega (arith, a.total);
  listed = omega (arith, a.listed, length-append out (t ∷ []));
}
account-IsAccounted (excluded why) out st a = record {
  total = omega (arith, a.total, sum-put st.reasons why);
  listed = a.listed;
}

record Scanned (f : TransitionFilter) (out : List Transition) (st : ExportStats)
    (lines : List (Option Record)) (res : List Transition × ExportStats) : Type 0 where
  accounted : IsAccounted res.0 res.1
  number : res.1.scanned ≡ st.scanned + length lines
  rows : res.0 ≡ out ++ rows_of f lines

account_scanned :
    (c : Converted) (out : List Transition) (st : ExportStats)
    → (account c (seen (out, st))).1.scanned ≡ st.scanned + 1
unfolding drop
account_scanned (converted t) out st = refl
account_scanned (excluded why) out st = refl

account_rows :
    (c : Converted) (out : List Transition) (st : ExportStats) (later : List Transition)
    → (account c (seen (out, st))).0 ++ later ≡ out ++ row_of c later
account_rows (converted t) out st later = append_assoc out (t ∷ []) later
account_rows (excluded why) out st later = refl

scan-Scanned :
    (f : TransitionFilter) (out : List Transition) (st : ExportStats) (lines : List (Option Record))
    → IsAccounted out st
    → Scanned f out st lines (scan_lines f (out, st) lines)
unfolding scan_lines rows_of
scan-Scanned f out st [] a = record {
  accounted = a;
  number = omega arith;
  rows = sym (append-nil out);
}
scan-Scanned f out st (line ∷ lines) a =
    let next = account (line_of f line) (seen (out, st)) in
    let rest = scan-Scanned f next.0 next.1 lines (account-IsAccounted (line_of f line) out st a) in
    record {
      accounted = rest.accounted;
      number = omega (arith, rest.number, account_scanned (line_of f line) out st);
      rows = rest.rows ∙ account_rows (line_of f line) out st (rows_of f lines);
    }

-- The accounting of an export never fails: every line that is not blank is counted once, as a row or
-- under the reason that it is none, and the rows are those of the lines, in their order.
pub scan_transitions-balances :
    (f : TransitionFilter) (lines : List (Option Record))
    → (st : ExportStats) × (scan_transitions f lines ≡ some (rows_of f lines, st))
      × (st.scanned ≡ length lines)
      × (st.exported ≡ length (rows_of f lines))
      × (st.scanned ≡ st.exported + excluded_total st)
unfolding scan_transitions balanced
scan_transitions-balances f lines =
    let res = scan_lines f no_rows lines in
    let start : IsAccounted no_rows.0 no_rows.1 = record {
      total = unfold excluded_total sum values in refl;
      listed = refl;
    } in
    let c = scan-Scanned f [] no_rows.1 lines start in
    (
      res.1,
      rw (← c.rows) (ground (arith, c.accounted.total)),
      omega (arith, c.number),
      rw (← c.rows) (sym c.accounted.listed),
      c.accounted.total,
    )
