-- ===== src/Policy/Tests.antt =====
-- Tests of the classifier, most of them from internal/hp/policy_test.go.
use fasthack.Prelude.{◌≡◌, ◌↔◌, refl, String, Option, none, some, true, false, List}
use fasthack.Text.{Text, codes}
use fasthack.Policy.Heads.{Policy, passthrough, record_only, serve, Verdict}
use fasthack.Policy.Classify.{classify}
use fasthack.Policy.Syntax.{split_segments, has_command_substitution}
use fasthack.Policy.Safe.{EachIsSafe, classify-EachIsSafe}
use fasthack.Policy.Chain.{verdicts, IsStrictest, classify-IsStrictest}
use fasthack.Policy.Endless.{any_endless, is_endless, never_returns, classify-returns_iff}
use fasthack.Policy.Run.{run_classify}

abbrev policy_of : String → Option Policy
policy_of s = elim (classify 2 (codes s)) [ none ↦ none | some v ↦ some v.0 ]

reads : policy_of "cd src && FOO=1 grep -rn 'date' . | head -5 2>&1" ≡ some serve
unfolding run_classify
reads = refl

redirected : policy_of "pytest > out.txt" ≡ some record_only
unfolding run_classify
redirected = refl

substituted : policy_of "echo $(date)" ≡ some passthrough
unfolding run_classify
substituted = refl

recursive : policy_of "uv run pip install requests" ≡ none
unfolding run_classify
recursive = refl

delegated : classify 2 (codes "uv run pytest -q") ≡ some (serve, codes "uv run -> build: pytest")
unfolding run_classify
delegated = refl

abbrev suite : Text
suite = codes "cd src && FOO=1 pytest -q tests 2>&1 | head -5"

abbrev suite_reason : Text
suite_reason = codes "chain: strictest segment is SERVE (build: pytest)"

suite-serve : classify 2 suite ≡ some (serve, suite_reason)
unfolding run_classify
suite-serve = refl

classify-EachIsSafe_example :
    (has_command_substitution suite ≡ false) × EachIsSafe (split_segments suite)
classify-EachIsSafe_example = classify-EachIsSafe 2 suite suite_reason suite-serve

abbrev strict : Text
strict = codes "grep -rn foo . ; rm -rf build"

classify-IsStrictest_example :
    (vs : List Verdict) × (verdicts 2 (split_segments strict) ≡ some vs)
    × IsStrictest record_only vs
unfolding run_classify
classify-IsStrictest_example =
    classify-IsStrictest 2 strict
      (record_only, codes "chain: strictest segment is RECORD_ONLY (mutation: rm)") refl refl refl

abbrev nested : Text
nested = codes "cd app && poetry run pip install -r requirements.txt"

classify-returns_iff_example : (classify 7 nested ≡ none) ↔ (never_returns nested ≡ true)
classify-returns_iff_example = classify-returns_iff 5 nested

-- The call that never returns, at whatever depth.
nested_never : never_returns nested ≡ true
unfolding run_classify never_returns any_endless is_endless
nested_never = refl
