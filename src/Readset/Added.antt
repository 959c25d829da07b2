-- ===== src/Readset/Added.antt =====
-- internal/hp/readset.go: the added paths that could change what a command reads.
use fasthack.Prelude.{◌&&◌, ◌||◌, Option, none, some, List, [], ◌∷◌, ◌++◌, String, if◌then◌else◌}
use fasthack.Text.{Text, text, text_eq, in_set, has_prefix, is_blank}
use fasthack.Text.Cut.{has_suffix, without_suffix}
use fasthack.Text.PathName.{slash, dot, base, ext, dir}
use fasthack.Text.Order.{quote}
use fasthack.Scope.{Repo, Scoped}
use fasthack.Scope.Paths.{paths_of}
use fasthack.Record.{ReadSet}
use fasthack.Readset.Observed.{observes, matched_test_glob, test_dirs, is_import_root}

-- readSetAutoDiscovered
unfoldable pub read_set_auto_discovered : List String
read_set_auto_discovered =
    "conftest.py" ∷ "__init__.py" ∷ "pytest.ini" ∷ "tox.ini" ∷ "setup.cfg" ∷ "pyproject.toml"
    ∷ "sitecustomize.py" ∷ "usercustomize.py" ∷ []

-- firstContainingDir
unfoldable pub first_containing_dir : List Text → Text → Option Text
first_containing_dir [] p = none
first_containing_dir (d ∷ dirs) p =
    let later = first_containing_dir dirs p in
    if text_eq d dot || has_prefix (d ++ slash) p then some d else later

-- readSetDirName
unfoldable pub read_set_dir_name : Text → Text
read_set_dir_name d = if text_eq d dot then text "the repo root" else d

abbrev pub or_else : Option Text → Option Text → Option Text
or_else none later = later
or_else (some why) later = some why

unfoldable pub named_why : Text → Option Text
named_why b =
    if in_set read_set_auto_discovered b || has_suffix (text ".pth") b
    then some (
        text "which python finds by name rather than by reference: the recorded run could not "
        ++ text
            "have read a file that did not exist, and the next run will read it without anything importing it")
    else none

abbrev pub glob_why : Option Text → Option Text
glob_why none = none
glob_why (some g) = some (
    text "which matches this project's own test discovery pattern "
    ++ quote g
    ++ text
        ", so the recorded run collected a strictly smaller set of tests than the next one will")

abbrev pub dir_why : Option Text → Option Text
dir_why none = none
dir_why (some d) = some (
    text "under "
    ++ read_set_dir_name d
    ++ text ", which the recorded run collected tests from; "
    ++ text "collection walks that directory rather than importing into it, and the method cannot "
    ++ text "see a directory being walked")

abbrev pub with_path : Text → Option Text → Option (Text × Text) → Option (Text × Text)
with_path a none later = later
with_path a (some why) later = some (a, why)

module _ (rs : ReadSet) where
  unfoldable pub root_why : Text → Option Text
  root_why a =
      if observes rs a && is_import_root rs (dir a)
      then some (
          text "a new top-level module in "
          ++ read_set_dir_name (dir a)
          ++ text ", which is on this run's import search path: an unchanged `import "
          ++ without_suffix (ext (base a)) (base a)
          ++ text "` that resolved to an installed package would resolve to this file instead")
      else none

  -- The body of the loop of `firstUnsafeAddition`: why the addition is not safe.
  unfoldable pub why_unsafe : Text → Option Text
  why_unsafe a = or_else (named_why (base a)) (
      or_else (glob_why (matched_test_glob rs (base a)))
        (or_else (dir_why (first_containing_dir (test_dirs rs) a)) (root_why a)))

  -- firstUnsafeAddition
  unfoldable pub first_unsafe_addition : List Text → Option (Text × Text)
  first_unsafe_addition [] = none
  first_unsafe_addition (a ∷ added) = with_path a (why_unsafe a) (first_unsafe_addition added)

-- readSetAddedPaths
unfoldable pub read_set_added_paths : Repo → Text → Text → Scoped (List Text)
read_set_added_paths repo recorded_tree current_tree =
    paths_of (repo.added_names recorded_tree current_tree)

-- readSetPolicyName
unfoldable pub read_set_policy_name : Text → Text
read_set_policy_name p = if is_blank p then text "unrecorded" else p
