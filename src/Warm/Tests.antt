-- ===== src/Warm/Tests.antt =====
-- A suggestion that the warmer runs, and one whose environment it cannot reproduce.
use fasthack.Prelude.{◌≡◌, refl, Bool, true, false, Option, none, some, []}
use fasthack.Text.{codes, text_eq, is_empty}
use fasthack.Text.Cut.{cut_prefix}
use fasthack.Text.Order.{itoa, digits_onto}
use fasthack.Dict.{get, put}
use fasthack.Policy.Run.{run_classify}
use fasthack.Key.{
  State, key, key_text, key_line, key_version, normalize_command, fields, fields_from, join_fields,
}
use fasthack.Speculate.Suggest.{Suggestion}
use fasthack.Warm.{
  Scratch, checkout_steps, checkout, dirty, Warmer, hashed, Attempt, Tools, short_or, short,
  plus_one, count_reason, refuse, observe_materialize, Warming, declined, job_of, execute,
  cwd_or_dot, on_key, on_hashed, on_worktree, on_checkout, is_too_dear, on_policy, on_classified,
  warm_one,
}
use fasthack.Warm.Careful.{IsOutcome, warm_one-IsOutcome}

-- The digest of the tests is the text itself.
abbrev tools : Tools
tools = record { fuel = 20; digest = λ t. t; rounded = λ r. [] }

abbrev here : State
here = record { tree = codes "t"; env_fp = codes "e"; env_complete = true }

abbrev there : State
there = record here { env_fp = codes "f" }

abbrev suggested : Suggestion
suggested = record {
  tree = codes "t";
  env_fp = codes "e";
  cwd_rel = [];
  cmd = codes "pytest";
  cmd_norm = codes "pytest";
  key = key (λ t. t) here (codes ".") (codes "pytest");
  policy = codes "SERVE";
  p = record { num = 1; den = 2 };
  duration_ms = 900;
  expected_ms = record { num = 900; den = 2 };
  reason = [];
}

abbrev attempt : State → Attempt
attempt st = record {
  git = record { read_tree = none; clean = none; checkout_index = none };
  checkout_ms = 40;
  no_worktree = none;
  state = hashed st;
  has_dir = true;
  took_ms = 850;
}

abbrev idle : Warmer
idle = record { refused = []; tally = []; ran = 0; spent_ms = 0; worst_materialize_ms = 0 }

abbrev scratch : Scratch
scratch = record { current = [] }

unfoldable run_warm : Attempt → Option Warming
unfolding run_classify text_eq is_empty cut_prefix itoa digits_onto get put key key_text key_line
    key_version normalize_command fields fields_from join_fields checkout_steps checkout dirty
    short_or short plus_one count_reason refuse observe_materialize declined job_of execute
    cwd_or_dot on_key on_hashed on_worktree on_checkout is_too_dear on_policy on_classified warm_one
run_warm a = warm_one tools a suggested idle scratch

abbrev ran_of : Option Warming → Bool
ran_of none = false
ran_of (some (w, sc, none)) = false
ran_of (some (w, sc, some job)) = true

runs : ran_of (warm_one tools (attempt here) suggested idle scratch) ≡ true
unfolding run_warm
runs = refl

declines : ran_of (warm_one tools (attempt there) suggested idle scratch) ≡ false
unfolding run_warm
declines = refl

warm_one-IsOutcome_example :
    (out : Warming) × (warm_one tools (attempt here) suggested idle scratch ≡ some out)
    × IsOutcome tools suggested idle.ran out
unfolding run_warm
warm_one-IsOutcome_example =
    warm_one-IsOutcome tools (attempt here) suggested idle scratch (λ h. cc h)
