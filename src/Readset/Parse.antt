-- ===== src/Readset/Parse.antt =====
-- internal/hp/readset.go: reading the lines that the wrapped processes report. A line that is not
-- blank is what it decodes to, or nothing where it does not decode; file access is not modelled.
use fasthack.Prelude.{
  ℕ, ◌+◌, Bool, true, false, ◌&&◌, ◌||◌, Option, none, some, List, [], ◌∷◌, ◌++◌, ◌==◌,
  if◌then◌else◌,
}
use fasthack.Text.{Text, text_eq, is_empty, is_blank, trim_space}
use fasthack.Text.PathName.{dot, clean, is_abs}
use fasthack.Text.Order.{sorted}
use fasthack.Scope.Paths.{escapes}
use fasthack.Record.{ReadSet}
use fasthack.Readset.Observed.{MethodInfo, method_info}

-- An exit status: a number, or -1 less a number.
pub data ℤ : Type 0 where
  pos : ℕ → ℤ
  negsuc : ℕ → ℤ

-- readSetLine
pub record ReadSetLine : Type 0 where
  pub v : ℕ
  pub method : Text
  pub tool : Text
  pub root : Text
  pub exit_status : ℤ
  pub complete : Bool
  pub test_globs : List Text
  pub paths : List Text

unfoldable pub inside_repo : Text → Option Text
inside_repo c = if text_eq c dot || escapes c then none else some c

unfoldable pub relative : Text → Option Text
relative p = if is_empty p || is_abs p then none else inside_repo (clean p)

-- readSetCleanPath
unfoldable pub read_set_clean_path : Text → Option Text
read_set_clean_path p = relative (trim_space p)

abbrev pub cons_path : Option Text → Option (List Text) → Option (List Text)
cons_path none later = none
cons_path (some c) none = none
cons_path (some c) (some cs) = some (c ∷ cs)

-- The loop over the paths of a line: `none` is a path that is not clean.
unfoldable pub clean_paths : List Text → Option (List Text)
clean_paths [] = some []
clean_paths (p ∷ ps) = cons_path (read_set_clean_path p) (clean_paths ps)

-- The loop over the patterns of a line.
unfoldable pub trimmed_globs : List Text → List Text
trimmed_globs [] = []
trimmed_globs (g ∷ gs) =
    let later = trimmed_globs gs in if is_blank g then later else trim_space g ∷ later

-- l.ExitStatus is 0 or 1
abbrev pub is_test_result : ℤ → Bool
is_test_result (pos n) = n == 0 || n == 1
is_test_result (negsuc n) = false

abbrev pub is_known : Option MethodInfo → Bool
is_known none = false
is_known (some info) = true

-- The variables of the loop of `parseReadSet`.
pub record Parsed : Type 0 where
  pub method : Text
  pub tool : Text
  pub paths : List Text
  pub globs : List Text
  pub lines : ℕ

abbrev pub with_paths : Parsed → ReadSetLine → Option (List Text) → Option Parsed
with_paths st l none = none
with_paths st l (some cs) = some (record {
  method = l.method;
  tool = if is_empty st.tool then l.tool else st.tool;
  paths = cs ++ st.paths;
  globs = trimmed_globs l.test_globs ++ st.globs;
  lines = st.lines + 1;
})

abbrev pub bind_parsed : Option Parsed → (Parsed → Option Parsed) → Option Parsed
bind_parsed none k = none
bind_parsed (some st) k = k st

abbrev pub no_lines : Parsed
no_lines = record { method = []; tool = []; paths = []; globs = []; lines = 0 }

-- The policy is filled in by the caller.
abbrev pub read_set_of : Parsed → ReadSet
read_set_of st = record {
  method = st.method;
  paths = sorted st.paths;
  test_globs = sorted st.globs;
  policy = [];
  tool = st.tool;
  processes = st.lines;
}

abbrev pub finish : Option Parsed → Option ReadSet
finish none = none
finish (some st) = if st.lines == 0 then none else some (read_set_of st)

module _ (real_path : Text → Text) (root : Text) where
  -- The guards on a line.
  unfoldable pub accepts : Parsed → ReadSetLine → Bool
  accepts st l =
      l.v == 1
      && l.complete
      && is_known (method_info l.method)
      && (is_empty st.method || text_eq st.method l.method)
      && is_test_result l.exit_status
      && (is_empty (real_path root) || text_eq (real_path l.root) (real_path root))

  -- The body of the loop.
  unfoldable pub parse_line : Parsed → ReadSetLine → Option Parsed
  parse_line st l = if accepts st l then with_paths st l (clean_paths l.paths) else none

  unfoldable pub parse_lines : Parsed → List (Option ReadSetLine) → Option Parsed
  parse_lines st [] = some st
  parse_lines st (none ∷ ls) = none
  parse_lines st (some l ∷ ls) = bind_parsed (parse_line st l) (λ st'. parse_lines st' ls)

  -- parseReadSet; `real_path` is readSetRealPath
  unfoldable pub parse_read_set : List (Option ReadSetLine) → Option ReadSet
  parse_read_set ls = finish (parse_lines no_lines ls)
