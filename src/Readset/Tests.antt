-- ===== src/Readset/Tests.antt =====
-- A read set of one test run against diffs that leave it valid and diffs that do not.
use fasthack.Prelude.{
  List, none, length, ◌==◌, ◌≡◌, refl, Bool, true, false, Option, some, [], ◌∷◌, ◌++◌,
}
use fasthack.Text.{Text, text_eq, codes}
use fasthack.Text.PathName.{dir_part, dir}
use fasthack.Text.Order.{escaped, quote}
use fasthack.Text.Glob.{
  read_outside, read_low, read_item, read_items, in_ranges, fits, later_place, match_items,
  path_match,
}
use fasthack.Policy.Heads.{to_string}
use fasthack.Scope.{Repo, ScopeDecision, printed}
use fasthack.Scope.Match.{refusal}
use fasthack.Scope.Run.{run_scope_match_at}
use fasthack.Record.{ReadSet}
use fasthack.Text.Cut.{has_suffix, without_suffix}
use fasthack.Readset.Observed.{
  python_imports, python_info, method_info, observes_ext, observes, dirs_of, read_set_dirs_of,
  default_test_globs, discovery_globs, first_match, matched_test_glob, tests_among, test_dirs,
  conftest_dir, is_import_root,
}
use fasthack.Readset.Added.{
  read_set_auto_discovered, first_containing_dir, read_set_dir_name, named_why, root_why,
  why_unsafe, first_unsafe_addition, read_set_added_paths, read_set_policy_name,
}
use fasthack.Readset.Match.{
  is_in, first_read, read_among, unseen, match_seen, match_read, match_global, match_safe,
  match_added, match_diff, match_known, match_method, match_set, scope_match_observed,
}
use fasthack.Readset.Parse.{
  pos, ReadSetLine, inside_repo, relative, read_set_clean_path, clean_paths, trimmed_globs, accepts,
  parse_line, parse_lines, parse_read_set,
}
use fasthack.Readset.Whole.{EachIsWhole, parse_read_set-EachIsWhole}
use fasthack.Readset.Promotion.{IsObserved, scope_match_observed-IsObserved}

unfoldable run_observed : Repo → Text → Text → Option ReadSet → ScopeDecision
unfolding run_scope_match_at dir_part dir escaped quote read_outside read_low read_item read_items
    in_ranges fits later_place match_items path_match to_string refusal python_imports python_info
    method_info observes_ext observes dirs_of read_set_dirs_of default_test_globs discovery_globs
    first_match matched_test_glob tests_among test_dirs conftest_dir is_import_root
    read_set_auto_discovered has_suffix without_suffix first_containing_dir read_set_dir_name
    named_why root_why why_unsafe first_unsafe_addition read_set_added_paths read_set_policy_name
    is_in first_read read_among unseen match_seen match_read match_global match_safe match_added
    match_diff match_known match_method match_set scope_match_observed
run_observed repo recorded_tree current_tree rs =
    scope_match_observed repo recorded_tree current_tree rs

abbrev diff_of : Text → Text → Repo
diff_of changed added = record {
  root = codes "/repo";
  exists = λ p. true;
  diff_names = λ a b. printed (changed ++ 0 ∷ []);
  added_names = λ a b. printed added;
}

abbrev tree_a : Text
tree_a = codes "aaaaaaaaaaaaaaaaaaaaaaaaaaaaaaaaaaaaaaaa"

abbrev tree_b : Text
tree_b = codes "bbbbbbbbbbbbbbbbbbbbbbbbbbbbbbbbbbbbbbbb"

abbrev billing : ReadSet
billing = record {
  method = codes "python/sys.modules";
  paths = codes "src/billing.py" ∷ codes "tests/test_billing.py" ∷ [];
  test_globs = [];
  policy = codes "SERVE";
  tool = codes "pytest";
  processes = 1;
}

abbrev promotes : Text → Text → Bool
promotes changed added =
    (scope_match_observed (diff_of changed added) tree_a tree_b (some billing)).promoted

unread : promotes (codes "src/auth.py") [] ≡ true
unfolding run_observed text_eq
unread = refl

read : promotes (codes "src/billing.py") [] ≡ false
unfolding run_observed text_eq
read = refl

data_file : promotes (codes "data/rates.json") [] ≡ false
unfolding run_observed text_eq
data_file = refl

new_test : promotes (codes "lib/test_new.py") (codes "lib/test_new.py") ≡ false
unfolding run_observed text_eq
new_test = refl

new_fixture : promotes (codes "tests/data/rates.json") (codes "tests/data/rates.json") ≡ false
unfolding run_observed text_eq
new_fixture = refl

new_note : promotes (codes "docs/note.json") (codes "docs/note.json") ≡ true
unfolding run_observed text_eq
new_note = refl

bracketed : path_match (codes "t[!a-c]*?.p\\y") (codes "t!ex.py") ≡ true
unfolding run_observed
bracketed = refl

scope_match_observed-IsObserved_example :
    (rs : ReadSet) × (some billing ≡ some rs)
    × IsObserved (diff_of (codes "src/auth.py") []) tree_a tree_b rs
scope_match_observed-IsObserved_example =
    scope_match_observed-IsObserved (diff_of (codes "src/auth.py") []) tree_a tree_b (some billing)
      unread

abbrev report : List Text → ReadSetLine
report paths = record {
  v = 1;
  method = codes "python/sys.modules";
  tool = codes "pytest";
  root = codes "/r";
  exit_status = pos 1;
  complete = true;
  test_globs = codes " t_*.py" ∷ [];
  paths = paths;
}

abbrev two_reports : List (Option ReadSetLine)
two_reports =
    some (report (codes "b.py" ∷ codes "./a/../a/c.py" ∷ []))
    ∷ some (report (codes "b.py" ∷ []))
    ∷ []

abbrev union_set : ReadSet
union_set = record {
  method = codes "python/sys.modules";
  paths = codes "a/c.py" ∷ codes "b.py" ∷ [];
  test_globs = codes "t_*.py" ∷ [];
  policy = [];
  tool = codes "pytest";
  processes = 2;
}

two-parsed : parse_read_set (λ p. p) (codes "/r") two_reports ≡ some union_set
unfolding run_observed parse_read_set parse_lines parse_line accepts clean_paths trimmed_globs
    read_set_clean_path relative inside_repo
two-parsed = refl

torn : parse_read_set (λ p. p) (codes "/r") (none ∷ two_reports) ≡ none
unfolding parse_read_set parse_lines
torn = refl

parse_read_set-EachIsWhole_example :
    EachIsWhole union_set.method union_set.paths two_reports
    × (2 ≡ length two_reports)
    × ((union_set.processes == 0) ≡ false)
parse_read_set-EachIsWhole_example =
    parse_read_set-EachIsWhole (λ p. p) (codes "/r") two_reports union_set two-parsed
