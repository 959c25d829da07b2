-- ===== src/Warm.antt =====
-- cmd/hindsight/warm.go: the warmer, which runs a suggestion where it was asked for; and its worktree,
-- Scratch of internal/hp/speculate.go. What git, the worktree and the run answer is an `Attempt`. A
-- pass is modelled with one worktree.
mod Careful
mod Tests
use fasthack.Prelude.{
  ℕ, zero, suc, ◌+◌, ◌*◌, Bool, true, false, not, ◌&&◌, ◌||◌, Option, none, some, List, [], ◌∷◌,
  ◌++◌, ltb, leb, ◌==◌, if◌then◌else◌, length, take,
}
use fasthack.Text.{Text, text, text_eq, is_empty}
use fasthack.Text.Cut.{cut_prefix}
use fasthack.Text.Order.{itoa}
use fasthack.Dict.{Dict, get, put}
use fasthack.Policy.Heads.{Policy, passthrough, record_only, serve, to_string, Verdict}
use fasthack.Policy.Classify.{classify}
use fasthack.Key.{State, normalize_command, key}
use fasthack.Speculate.Suggest.{Ratio, Suggestion}

-- Scratch, by the tree that it is known to hold
pub record Scratch : Type 0 where
  pub current : Text

-- The errors of `git read-tree`, `git clean` and `git checkout-index`.
pub record Git : Type 0 where
  pub read_tree : Option Text
  pub clean : Option Text
  pub checkout_index : Option Text

unfoldable pub checkout_steps :
    Text → Option Text → Option Text → Option Text → Option Text × Scratch
checkout_steps tree (some e) cleaned index =
    (some (text "read-tree " ++ tree ++ text ": " ++ e), record { current = [] })
checkout_steps tree none (some e) index = (some (text "clean: " ++ e), record { current = [] })
checkout_steps tree none none (some e) =
    (some (text "checkout-index: " ++ e), record { current = [] })
checkout_steps tree none none none = (none, record { current = tree })

-- Scratch.Checkout: the error, and the worktree
unfoldable pub checkout : Git → Text → Scratch → Option Text × Scratch
checkout git tree sc =
    if text_eq sc.current tree
    then (none, sc)
    else checkout_steps tree git.read_tree git.clean git.checkout_index

-- Scratch.Dirty
unfoldable pub dirty : Scratch → Scratch
dirty sc = record sc { current = [] }

-- warmer, by what it remembers
pub record Warmer : Type 0 where
  pub refused : Dict Text
  pub tally : Dict ℕ
  pub ran : ℕ
  pub spent_ms : ℕ
  pub worst_materialize_ms : ℕ

-- What a suggestion meets: git, the time of the checkout, an error of NewWorkspace, the state or its
-- error, whether the directory is there, and the time of the run.
pub data Hashed : Type 0 where
  hashed : State → Hashed
  unhashed : Text → Hashed

pub record Attempt : Type 0 where
  pub git : Git
  pub checkout_ms : ℕ
  pub no_worktree : Option Text
  pub state : Hashed
  pub has_dir : Bool
  pub took_ms : ℕ

-- The classifier's fuel, the digest, and the text of a rounded number of milliseconds.
pub record Tools : Type 0 where
  pub fuel : ℕ
  pub digest : Text → Text
  pub rounded : Ratio → Text

-- What `record` is given.
pub record Job : Type 0 where
  pub key : Text
  pub state : State
  pub cwd_rel : Text
  pub cmd : Text
  pub reason : Text

-- short
unfoldable pub short_or : Text → Option Text → Text
short_or s none = take 10 s
short_or s (some rest) = take 10 rest

unfoldable pub short : Text → Text
short s = short_or s (cut_prefix (text "hs-v1:") s)

unfoldable pub plus_one : Option ℕ → ℕ
plus_one none = 1
plus_one (some n) = n + 1

-- warmer.count
unfoldable pub count_reason : Text → Warmer → Warmer
count_reason reason w = record w { tally = put w.tally reason (plus_one (get w.tally reason)) }

-- warmer.refuse
unfoldable pub refuse : Suggestion → Text → Warmer → Warmer
refuse sug why w = count_reason why (record w { refused = put w.refused sug.key why })

-- warmer.observeMaterialize
unfoldable pub observe_materialize : ℕ → Warmer → Warmer
observe_materialize ms w =
    if ltb w.worst_materialize_ms ms then record w { worst_materialize_ms = ms } else w

abbrev pub Warming : Type 0
Warming = Warmer × Scratch × Option Job

unfoldable pub declined : Suggestion → Text → Warmer → Scratch → Warming
declined sug why w sc = (refuse sug why w, sc, none)

unfoldable pub job_of : State → Text → Text → Suggestion → Text → Job
job_of st k cwd_rel sug reason = record {
  key = k;
  state = st;
  cwd_rel = cwd_rel;
  cmd = sug.cmd;
  reason = reason;
}

-- Behind every guard: the worktree is dirty, and the command is recorded.
unfoldable pub execute : Attempt → Job → Warmer → Scratch → Warming
execute a job w sc = (
  count_reason (text "executed") (record w { ran = w.ran + 1; spent_ms = w.spent_ms + a.took_ms }),
  dirty sc,
  some job,
)

unfoldable pub cwd_or_dot : Text → Text
cwd_or_dot cwd_rel = if is_empty cwd_rel then text "." else cwd_rel

unfoldable pub on_key : Attempt → Suggestion → Text → State → Text → Warmer → Scratch → Warming
on_key a sug reason st k w sc =
    if not (text_eq k sug.key)
    then declined sug
        (text "key disagrees with the daemon's; refusing rather than filling a slot nobody reads") w
        sc
    else if not a.has_dir
    then declined sug (text "no " ++ cwd_or_dot sug.cwd_rel ++ text " in this tree") w sc
    else execute a (job_of st k (cwd_or_dot sug.cwd_rel) sug reason) w sc

-- The preflight.
unfoldable pub on_hashed : Tools → Attempt → Suggestion → Text → Hashed → Warmer → Scratch → Warming
on_hashed t a sug reason (unhashed e) w sc =
    declined sug (text "could not hash the scratch: " ++ e) w sc
on_hashed t a sug reason (hashed st) w sc =
    if not (text_eq st.tree sug.tree)
    then declined sug
        (text "materialized tree is " ++ short st.tree ++ text ", asked for " ++ short sug.tree) w
        sc
    else if not st.env_complete
    then declined sug (text "an ecosystem is in use here and could not be read") w sc
    else if not (text_eq st.env_fp sug.env_fp)
    then declined sug
        (text "environment fingerprint is "
          ++ short st.env_fp
          ++ text ", agents are at "
          ++ short sug.env_fp
          ++ text "; nothing here would match their key")
        w sc
    else on_key a sug reason st
        (key t.digest st (cwd_or_dot sug.cwd_rel) (normalize_command sug.cmd)) w sc

unfoldable pub on_worktree :
    Tools → Attempt → Suggestion → Text → Option Text → Warmer → Scratch → Warming
on_worktree t a sug reason (some e) w sc =
    declined sug (text "scratch is not a worktree: " ++ e) w sc
on_worktree t a sug reason none w sc = on_hashed t a sug reason a.state w sc

unfoldable pub on_checkout :
    Tools → Attempt → Suggestion → Text → Option Text × Scratch → Warmer → Warming
on_checkout t a sug reason (some e, sc) w =
    declined sug (text "could not materialize the tree: " ++ e) w sc
on_checkout t a sug reason (none, sc) w =
    on_worktree t a sug reason a.no_worktree (observe_materialize a.checkout_ms w) sc

-- The expected saving is below the cost of the checkout.
unfoldable pub is_too_dear : Warmer → Suggestion → Bool
is_too_dear w sug =
    ltb 0 w.worst_materialize_ms
    && ltb sug.expected_ms.num (w.worst_materialize_ms * sug.expected_ms.den)

unfoldable pub on_policy : Tools → Attempt → Suggestion → Verdict → Warmer → Scratch → Warming
on_policy t a sug (passthrough, reason) w sc =
    declined sug (text "policy is " ++ to_string passthrough ++ text ", not SERVE") w sc
on_policy t a sug (record_only, reason) w sc =
    declined sug (text "policy is " ++ to_string record_only ++ text ", not SERVE") w sc
on_policy t a sug (serve, reason) w sc =
    if is_too_dear w sug
    then declined sug
        (text "expected saving "
          ++ t.rounded sug.expected_ms
          ++ text "ms does not cover the ~"
          ++ itoa w.worst_materialize_ms
          ++ text "ms this repository costs to materialize")
        w sc
    else on_checkout t a sug reason (checkout a.git sug.tree sc) w

unfoldable pub on_classified :
    Tools → Attempt → Suggestion → Option Verdict → Warmer → Scratch → Option Warming
on_classified t a sug none w sc = none
on_classified t a sug (some v) w sc = some (on_policy t a sug v w sc)

-- warmOne; `none` is a call of `Classify` that does not return
unfoldable pub warm_one : Tools → Attempt → Suggestion → Warmer → Scratch → Option Warming
warm_one t a sug w sc = on_classified t a sug (classify t.fuel sug.cmd) w sc

-- budget, and whether its time is over
pub record Budget : Type 0 where
  pub runs : ℕ
  pub used : ℕ

-- budget.exhausted
unfoldable pub exhausted : Bool → Budget → Bool
exhausted late b = (ltb 0 b.runs && leb b.runs b.used) || late

-- budget.take
unfoldable pub take_run : Bool → Budget → Bool × Budget
take_run late b = if exhausted late b then (false, b) else (true, record b { used = b.used + 1 })
