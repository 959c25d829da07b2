-- ===== src/Readset/Observed.antt =====
-- internal/hp/readset.go: what a read set tells.
use fasthack.Prelude.{
  Bool, true, false, ◌&&◌, ◌||◌, Option, none, some, List, [], ◌∷◌, ◌++◌, String, if◌then◌else◌,
}
use fasthack.Text.{Text, text, text_eq, in_set}
use fasthack.Text.PathName.{dot, base, ext, dir}
use fasthack.Text.Order.{sorted}
use fasthack.Text.Glob.{path_match}
use fasthack.Scope.Paths.{lower}
use fasthack.Record.{ReadSet}

-- readSetMethodInfo
pub record MethodInfo : Type 0 where
  pub observes : List String
  pub guarantee : Text

-- ReadSetPythonImports
unfoldable pub python_imports : Text
python_imports = text "python/sys.modules"

unfoldable pub python_info : MethodInfo
python_info = record {
  observes = ".py" ∷ ".so" ∷ ".pyd" ∷ [];
  guarantee =
      text "every in-repo Python module the run imported, read out of sys.modules once the "
      ++ text "session finished; a file opened with open() is not an import and is not in the set";
}

-- readSetMethods[method]
unfoldable pub method_info : Text → Option MethodInfo
method_info method = if text_eq method python_imports then some python_info else none

abbrev pub observes_of : Option MethodInfo → List String
observes_of none = []
observes_of (some info) = info.observes

unfoldable pub observes_ext : Option MethodInfo → Text → Bool
observes_ext info p = in_set (observes_of info) (lower (ext p))

-- Observes, of a read set that is not nil
unfoldable pub observes : ReadSet → Text → Bool
observes rs p = observes_ext (method_info rs.method) p

unfoldable pub dirs_of : List Text → List Text
dirs_of [] = []
dirs_of (p ∷ ps) = dir p ∷ dirs_of ps

-- readSetDirsOf
unfoldable pub read_set_dirs_of : List Text → List Text
read_set_dirs_of paths = sorted (dirs_of paths)

-- defaultTestGlobs
unfoldable pub default_test_globs : List Text
default_test_globs = text "test_*.py" ∷ text "*_test.py" ∷ []

abbrev pub or_default : List Text → List Text
or_default [] = default_test_globs
or_default (g ∷ gs) = g ∷ gs

-- discoveryGlobs
unfoldable pub discovery_globs : ReadSet → List Text
discovery_globs rs = or_default rs.test_globs

unfoldable pub first_match : List Text → Text → Option Text
first_match [] b = none
first_match (g ∷ gs) b = let later = first_match gs b in if path_match g b then some g else later

-- matchedTestGlob
unfoldable pub matched_test_glob : ReadSet → Text → Option Text
matched_test_glob rs b = first_match (discovery_globs rs) b

abbrev pub is_some : Option Text → Bool
is_some none = false
is_some (some x) = true

unfoldable pub tests_among : ReadSet → List Text → List Text
tests_among rs [] = []
tests_among rs (p ∷ ps) =
    let later = tests_among rs ps in
    if is_some (matched_test_glob rs (base p)) then p ∷ later else later

-- testDirs
unfoldable pub test_dirs : ReadSet → List Text
test_dirs rs = read_set_dirs_of (tests_among rs rs.paths)

unfoldable pub conftest_dir : List Text → Text → Bool
conftest_dir [] d = false
conftest_dir (p ∷ ps) d =
    text_eq (base p) (text "conftest.py") && text_eq (dir p) d || conftest_dir ps d

-- importRoots()[d]
unfoldable pub is_import_root : ReadSet → Text → Bool
is_import_root rs d = text_eq d dot || conftest_dir rs.paths d
