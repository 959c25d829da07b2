-- ===== src/Speculate/Suggest.antt =====
-- internal/hp/speculate.go: Suggestions. A float64 is an exact fraction; the digest of a key, the
-- decimal text of a number of seconds, and the fuel of the classifier are parameters.
use fasthack.Prelude.{
  ℕ, ◌+◌, ◌-◌, ◌*◌, ◌^◌, Bool, true, false, not, ◌&&◌, ◌||◌, Option, none, some, List, [], ◌∷◌,
  ◌++◌, ltb, leb, ◌==◌, if◌then◌else◌, length, take,
}
use fasthack.Text.{Text, text}
use fasthack.Text.Order.{text_less, itoa}
use fasthack.Dict.{get}
use fasthack.Sort.{sort_by}
use fasthack.Policy.Heads.{passthrough, record_only, serve, to_string, Verdict}
use fasthack.Policy.Classify.{classify}
use fasthack.Key.{key}
use fasthack.Store.{lookup, records}
use fasthack.Daemon.{Server}
use fasthack.Daemon.Leases.{is_true}
use fasthack.Fleet.{plural}
use fasthack.Speculate.{CmdEvidence, SpecSite, spec_min_observations, default_suggest_limit}
use fasthack.Speculate.Learn.{Learned, learn_from_log}

-- A fraction; the denominator is not 0.
pub record Ratio : Type 0 where
  pub num : ℕ
  pub den : ℕ

-- Suggestion
pub record Suggestion : Type 0 where
  pub tree : Text
  pub env_fp : Text
  pub cwd_rel : Text
  pub cmd : Text
  pub cmd_norm : Text
  pub key : Text
  pub policy : Text
  pub p : Ratio
  pub duration_ms : ℕ
  pub expected_ms : Ratio
  pub reason : Text

-- What the process brings: the classifier's fuel, SHA-256, `MinDurationMS`, and the text of a float.
pub record Setup : Type 0 where
  pub fuel : ℕ
  pub digest : Text → Text
  pub floor : ℕ
  pub seconds : ℕ → Text

unfoldable pub less_ratio : Ratio → Ratio → Bool
less_ratio a b = ltb (a.num * b.den) (b.num * a.den)

-- specMaxP
abbrev pub spec_max_p : Ratio
spec_max_p = record { num = 99; den = 100 }

unfoldable pub capped : Ratio → Ratio
capped r = if less_ratio spec_max_p r then spec_max_p else r

-- 1 - (1 - seen / trees) ^ (agents + 1), capped
unfoldable pub chance : ℕ → ℕ → ℕ → Ratio
chance seen trees agents = capped (record {
  num = trees ^ (agents + 1) - (trees - seen) ^ (agents + 1);
  den = trees ^ (agents + 1);
})

unfoldable pub times : Ratio → ℕ → Ratio
times r n = record { num = r.num * n; den = r.den }

-- msText
unfoldable pub ms_text : (ℕ → Text) → ℕ → Text
ms_text seconds ms =
    if leb 1000 ms then seconds ms ++ text "s to run" else itoa ms ++ text "ms to run"

unfoldable pub reason_text : Setup → ℕ → SpecSite → CmdEvidence → Text → Text
reason_text w trees site e reason =
    text "run at "
    ++ itoa (length e.trees)
    ++ text " of "
    ++ itoa trees
    ++ text " observed states, "
    ++ plural (length site.agents) (text "agent")
    ++ text " at this one; "
    ++ ms_text w.seconds e.max_ms
    ++ text " ("
    ++ reason
    ++ text ")"

abbrev pub is_some {ℓ} : {A : Type ℓ} → Option A → Bool
is_some none = false
is_some (some a) = true

-- speculationBlocked
unfoldable pub speculation_blocked : Server → Text → Bool
speculation_blocked sv key = is_some (get sv.leases key) || is_true (get sv.unservable key)

-- Behind the guards of the inner loop.
unfoldable pub suggestion : Setup → ℕ → SpecSite → CmdEvidence → Text → Text → Suggestion
suggestion w trees site e key reason =
    let p = chance (length e.trees) trees (length site.agents) in
    record {
      tree = site.tree;
      env_fp = site.env_fp;
      cwd_rel = e.cwd_rel;
      cmd = e.cmd;
      cmd_norm = e.cmd_norm;
      key = key;
      policy = to_string serve;
      p = p;
      duration_ms = e.max_ms;
      expected_ms = times p e.max_ms;
      reason = reason_text w trees site e reason;
    }

-- A key that is tried, cached, or blocked.
unfoldable pub is_taken : Server → Learned → Text → Bool
is_taken sv l key =
    is_true (get l.attempted key) || is_some (lookup sv.store key) || speculation_blocked sv key

unfoldable pub site_key : Setup → SpecSite → CmdEvidence → Text
site_key w site e =
    key w.digest (record { tree = site.tree; env_fp = site.env_fp; env_complete = false }) e.cwd_rel
      e.cmd_norm

-- `none` is a call of `Classify` that does not return.
unfoldable pub suggest_verdict :
    Setup → Server → Learned → SpecSite → CmdEvidence → Option Verdict → Option (List Suggestion)
suggest_verdict w sv l site e none = none
suggest_verdict w sv l site e (some (passthrough, reason)) = some []
suggest_verdict w sv l site e (some (record_only, reason)) = some []
suggest_verdict w sv l site e (some (serve, reason)) =
    let k = site_key w site e in
    some (if is_taken sv l k then [] else suggestion w l.trees site e k reason ∷ [])

-- Too rare, or too cheap.
unfoldable pub is_idle : ℕ → CmdEvidence → Bool
is_idle floor e = ltb e.demands spec_min_observations || (ltb 0 floor && ltb e.max_ms floor)

-- The body of the inner loop: a suggestion, or `continue`.
unfoldable pub consider :
    Setup → Server → Learned → SpecSite → CmdEvidence → Option (List Suggestion)
consider w sv l site e =
    if is_idle w.floor e then some [] else suggest_verdict w sv l site e (classify w.fuel e.cmd)

abbrev pub and_then : Option (List Suggestion) → Option (List Suggestion) → Option (List Suggestion)
and_then none more = none
and_then (some out) none = none
and_then (some out) (some more) = some (out ++ more)

unfoldable pub over_cmds :
    Setup → Server → Learned → SpecSite → List CmdEvidence → Option (List Suggestion)
over_cmds w sv l site [] = some []
over_cmds w sv l site (e ∷ es) = and_then (consider w sv l site e) (over_cmds w sv l site es)

unfoldable pub over_sites : Setup → Server → Learned → List SpecSite → Option (List Suggestion)
over_sites w sv l [] = some []
over_sites w sv l (site ∷ sites) = and_then (over_cmds w sv l site l.cmds) (over_sites w sv l sites)

-- The greater saving first, and the lesser key where they are equal.
unfoldable pub worth_more : Suggestion → Suggestion → Bool
worth_more a b =
    less_ratio b.expected_ms a.expected_ms
    || (not (less_ratio a.expected_ms b.expected_ms) && text_less a.key b.key)

abbrev pub ranked : ℕ → Option (List Suggestion) → Option (List Suggestion)
ranked limit none = none
ranked limit (some out) = some (take limit (sort_by worth_more out))

unfoldable pub suggest_from : Setup → Server → Learned → ℕ → Option (List Suggestion)
suggest_from w sv l limit =
    if l.trees == 0 then some [] else ranked limit (over_sites w sv l l.sites)

-- Suggestions; `none` where it does not return
unfoldable pub suggestions : Setup → Server → ℕ → Option (List Suggestion)
suggestions w sv limit =
    suggest_from w sv (learn_from_log (records sv.store))
      (if limit == 0 then default_suggest_limit else limit)
