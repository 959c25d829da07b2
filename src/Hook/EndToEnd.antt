-- ===== src/Hook/EndToEnd.antt =====
-- cmd/hindsight/hook.go with internal/hp/daemon.go: what the hook replays, and for which commands.
use fasthack.Prelude.{◌≡◌, ◌≢◌, ◌⊎◌, ap, sym, ◌∙◌, inl, inr, true, false, ℕ, some}
use fasthack.Text.{Text, text, is_empty}
use fasthack.Policy.Syntax.{split_segments, has_command_substitution}
use fasthack.Policy.Heads.{Verdict}
use fasthack.Policy.Safe.{EachIsSafe}
use fasthack.Key.{State}
use fasthack.Record.{Record, decision_hit, decision_miss}
use fasthack.Scope.{Repo}
use fasthack.Daemon.{LookupReq, LookupResp}
use fasthack.Daemon.Decisions.{miss_resp}
use fasthack.Daemon.Lookup.{answered}
use fasthack.Store.Index.{MayServe}
use fasthack.Daemon.Served.{IsScopedTo, IsAnswerOf, IsJustified}
use fasthack.Hook.Flow.{Surroundings, rewrites, request, cmd_hook}
use fasthack.Hook.Asked.{Replays, Records, IsAsked, request-EachIsSafe, cmd_hook-IsAsked}

-- The answer is the output of a record that may be served to the request.
abbrev pub IsBacked : Repo → LookupReq → LookupResp → Type 0
IsBacked repo req resp =
    (src : Record) × IsAnswerOf src resp
    × (((resp.tier ≡ 0) × (src.key ≡ req.key) × MayServe src) ⊎ IsScopedTo repo req src resp.tier)

missed-hit : (waited : ℕ) → (miss_resp waited).decision ≢ decision_hit
unfolding miss_resp decision_hit decision_miss text
missed-hit waited h = cc h

hit-IsBacked :
    (repo : Repo) (req : LookupReq) (resp : LookupResp)
    → IsJustified repo req (answered resp)
    → resp.decision ≡ decision_hit
    → (req.serve ≡ true) × IsBacked repo req resp
hit-IsBacked repo req resp (inl e) hit =
    absurd (missed-hit resp.waited_ms (ap (λ (r : LookupResp). r.decision) (sym e) ∙ hit))
hit-IsBacked repo req resp (inr (asked, src, answers, why)) hit = (asked, (src, answers, why))

-- What a replacement does, and what is known of the command if it is replayed.
pub data IsHandled (repo : Repo) (w : Surroundings) (cmd c : Text) : Type 0 where
  forced : is_empty w.forced ≡ false → c ≡ w.forced → IsHandled repo w cmd c
  recorded :
      (v : Verdict) (st : State) (resp : LookupResp)
      → resp.decision ≢ decision_hit
      → Records w cmd v st c
      → IsHandled repo w cmd c
  replayed :
      (v : Verdict) (root : Text) (st : State) (resp : LookupResp)
      → w.state ≡ some st
      → resp.decision ≡ decision_hit
      → Replays w resp c
      → IsBacked repo (request w cmd v root st) resp
      → w.serve_enabled ≡ true
      → has_command_substitution cmd ≡ false
      → EachIsSafe (split_segments cmd)
      → IsHandled repo w cmd c

module _ (repo : Repo) (fuel : ℕ) (w : Surroundings)
    (justified : (req : LookupReq) (resp : LookupResp)
      → w.answer req ≡ some resp
      → IsJustified repo req (answered resp)) where
  asked-IsHandled : (cmd c : Text) → IsAsked fuel w cmd c → IsHandled repo w cmd c
  asked-IsHandled cmd c a = elim a.replaced [
    | inr (other, records) ↦ recorded a.verdict a.state a.resp other records
    | inl (hit, replays) ↦
        let req = request w cmd a.verdict a.root a.state in
        let (asked, backed) = hit-IsBacked repo req a.resp (justified req a.resp a.answered) hit in
        let (told, plain, safe) =
          request-EachIsSafe fuel w cmd a.root a.verdict a.state a.classified asked in
        replayed a.verdict a.root a.state a.resp a.measured.1 hit replays backed told plain safe
  ]

  -- If the daemon gives no answer but those that handleLookup may give (Daemon.Served), then a
  -- command that the hook replaces without the self-test is either recorded, after an answer that is
  -- no HIT, or replayed, after a HIT. One that is replayed has no command substitution, each of its
  -- segments is blank, a plain `cd`, or safe in the sense of Policy.Safe, and the hook was told to
  -- serve; what is replayed is the output of a record that was recorded as servable and is not
  -- refuted, with the key of the command at the measured state, or with its command, directory and
  -- environment and promoted by tier 1 or tier 2.
  pub cmd_hook-IsHandled :
      (c note : Text)
      → cmd_hook fuel w ≡ rewrites c note
      → (cmd : Text) × (w.payload ≡ some cmd) × IsHandled repo w cmd c
  cmd_hook-IsHandled c note h =
      let (enabled, cmd, p, a) = cmd_hook-IsAsked fuel w c note h in
      (
        cmd,
        p,
        elim a as (λ x. IsHandled repo w cmd c) [
          | inl (f, same) ↦ forced f same
          | inr asked ↦ asked-IsHandled cmd c asked
        ],
      )
