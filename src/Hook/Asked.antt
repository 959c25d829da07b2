-- ===== src/Hook/Asked.antt =====
-- cmd/hindsight/hook.go: what `cmdHook` has found when it replaces a command or asks to be served.
use fasthack.Prelude.{
  ℕ, ◌≡◌, ◌≢◌, ◌⊎◌, refl, ◌++◌, subst, inl, inr, Bool, true, false, Option, none, some, arith,
  Bool-cases, if◌then◌else◌,
}
use fasthack.Text.{Text, text, text_eq, is_empty}
use fasthack.Text.Laws.{text_eq_sound, text_eq_complete}
use fasthack.Policy.Syntax.{split_segments, has_command_substitution}
use fasthack.Policy.Heads.{passthrough, record_only, serve, to_string, Verdict}
use fasthack.Policy.Classify.{classify}
use fasthack.Policy.Safe.{EachIsSafe, classify-EachIsSafe}
use fasthack.Text.Order.{itoa}
use fasthack.Text.Base64.{bytes_of, base64}
use fasthack.Key.{State, key, normalize_command}
use fasthack.Record.{decision_hit}
use fasthack.Fastpath.{known_fast}
use fasthack.Daemon.{LookupResp}
use fasthack.Hook.{shell_quote}
use fasthack.Hook.Flow.{
  blob_path, Surroundings, passes, rewrites, served_command, request, record_command, on_miss,
  on_answer, on_state, on_root, intercept, on_verdict, on_payload, cmd_hook,
}

-- A request that asks to be served is for a safe command, and the hook was told to serve.
pub request-EachIsSafe :
    (fuel : ℕ) (w : Surroundings) (cmd root : Text) (v : Verdict) (st : State)
    → classify fuel cmd ≡ some v
    → (request w cmd v root st).serve ≡ true
    → (w.serve_enabled ≡ true)
      × (has_command_substitution cmd ≡ false)
      × EachIsSafe (split_segments cmd)
unfolding request
request-EachIsSafe fuel w cmd root (passthrough, reason) st e h = ground arith
request-EachIsSafe fuel w cmd root (record_only, reason) st e h = ground arith
request-EachIsSafe fuel w cmd root (serve, reason) st e h =
    let (plain, safe) = classify-EachIsSafe fuel cmd reason e in (ground arith, plain, safe)

-- Shell text that prints one file, prints another to the standard error, and ends with a code.
unfoldable pub replaying : Text → Text → ℕ → Text
replaying out err code =
    text "cat "
    ++ shell_quote out
    ++ text "; cat "
    ++ shell_quote err
    ++ text " >&2; exit "
    ++ itoa code

-- Shell text that has the program run a command and record it under a key, from a state.
unfoldable pub recording : Text → Text → State → Verdict → Text → Text → Text
recording self key st v cwd cmd =
    shell_quote self
    ++ text " record --key "
    ++ shell_quote key
    ++ text " --tree "
    ++ shell_quote st.tree
    ++ text " --envfp "
    ++ shell_quote st.env_fp
    ++ text " --policy "
    ++ shell_quote (to_string v.0)
    ++ text " --cwdrel "
    ++ shell_quote cwd
    ++ text " --b64 "
    ++ base64 (bytes_of cmd)

-- The command replays the blobs and the exit code of an answer.
abbrev pub Replays : Surroundings → LookupResp → Text → Type 0
Replays w resp c =
    c
    ≡ replaying (blob_path w.home resp.stdout_blob) (blob_path w.home resp.stderr_blob)
        resp.exit_code

-- The command records the run of `cmd` under its key at the measured state.
abbrev pub Records : Surroundings → Text → Verdict → State → Text → Type 0
Records w cmd v st c =
    (self : Text) × (w.self ≡ some self)
    × (c ≡ recording self (key w.digest st w.cwd_rel (normalize_command cmd)) st v w.cwd_rel cmd)

served-Replays :
    (w : Surroundings) (resp : LookupResp) → Replays w resp (served_command w.home resp)
unfolding served_command replaying
served-Replays w resp = refl

recorded-Records :
    (w : Surroundings) (cmd self root : Text) (v : Verdict) (st : State)
    → w.self ≡ some self
    → Records w cmd v st (record_command w cmd self (request w cmd v root st))
unfolding record_command recording request
recorded-Records w cmd self root (p, reason) st e = (self, e, refl)

-- The command `c` is put in place of `cmd` after the daemon has answered.
pub record IsAsked (fuel : ℕ) (w : Surroundings) (cmd c : Text) : Type 0 where
  pub verdict : Verdict
  pub root : Text
  pub state : State
  pub resp : LookupResp
  pub classified : classify fuel cmd ≡ some verdict
  pub intercepted : verdict.0 ≢ passthrough
  pub slow : known_fast w.memo (normalize_command cmd) w.floor ≡ false
  pub measured : (w.root ≡ some root) × (w.state ≡ some state) × (state.env_complete ≡ true)
  pub answered : w.answer (request w cmd verdict root state) ≡ some resp
  pub replaced :
      ((resp.decision ≡ decision_hit) × Replays w resp c)
      ⊎ ((resp.decision ≢ decision_hit) × Records w cmd verdict state c)

module _ (fuel : ℕ) (w : Surroundings) (cmd c note : Text) where
  answer-replaced :
      (v : Verdict) (root : Text) (st : State) (resp : LookupResp)
      → on_answer w cmd (request w cmd v root st) (some resp) ≡ rewrites c note
      → ((resp.decision ≡ decision_hit) × Replays w resp c)
        ⊎ ((resp.decision ≢ decision_hit) × Records w cmd v st c)
  answer-replaced v root st resp h = elim (Bool-cases (text_eq resp.decision decision_hit)) [
    | inl e ↦ inl (
      text_eq_sound resp.decision decision_hit e,
      subst (Replays w resp) (cc (rw e at h)) (served-Replays w resp),
    )
    | inr e ↦ inr (
      (λ same. cc (e, text_eq_complete resp.decision decision_hit same)),
      missed w.self refl (rw e at h),
    )
  ]
    where
      missed :
          (o : Option Text)
          → w.self ≡ o
          → on_miss w cmd (request w cmd v root st) o ≡ rewrites c note
          → Records w cmd v st c
      missed none own g = cc g
      missed (some self) own g =
          subst (Records w cmd v st) (cc g) (recorded-Records w cmd self root v st own)

  module _ (v : Verdict) (e : classify fuel cmd ≡ some v) (p : v.0 ≢ passthrough)
      (k : known_fast w.memo (normalize_command cmd) w.floor ≡ false) where
    answer-IsAsked :
        (root : Text) (st : State) (o : Option LookupResp)
        → w.root ≡ some root
        → w.state ≡ some st
        → st.env_complete ≡ true
        → w.answer (request w cmd v root st) ≡ o
        → on_answer w cmd (request w cmd v root st) o ≡ rewrites c note
        → IsAsked fuel w cmd c
    answer-IsAsked root st none r m i a h = cc h
    answer-IsAsked root st (some resp) r m i a h = record {
      verdict = v;
      root = root;
      state = st;
      resp = resp;
      classified = e;
      intercepted = p;
      slow = k;
      measured = (r, m, i);
      answered = a;
      replaced = answer-replaced v root st resp h;
    }

    state-IsAsked :
        (root : Text) (st : State) (b : Bool)
        → w.root ≡ some root
        → w.state ≡ some st
        → st.env_complete ≡ b
        → (if b
            then on_answer w cmd (request w cmd v root st) (w.answer (request w cmd v root st))
            else passes)
          ≡ rewrites c note
        → IsAsked fuel w cmd c
    state-IsAsked root st false r m i h = cc h
    state-IsAsked root st true r m i h = answer-IsAsked root st _ r m i refl h

    root-IsAsked :
        (root : Text) (o : Option State)
        → w.root ≡ some root
        → w.state ≡ o
        → on_state w cmd v root o ≡ rewrites c note
        → IsAsked fuel w cmd c
    root-IsAsked root none r m h = cc h
    root-IsAsked root (some st) r m h = state-IsAsked root st st.env_complete r m refl h

    verdict-IsAsked :
        (o : Option Text) → w.root ≡ o → on_root w cmd v o ≡ rewrites c note → IsAsked fuel w cmd c
    verdict-IsAsked none r h = cc h
    verdict-IsAsked (some root) r h = root-IsAsked root w.state r refl h

  intercept-IsAsked :
      (v : Verdict)
      → classify fuel cmd ≡ some v
      → v.0 ≢ passthrough
      → intercept w cmd v ≡ rewrites c note
      → IsAsked fuel w cmd c
  unfolding intercept
  intercept-IsAsked v e p h =
      elim (Bool-cases (known_fast w.memo (normalize_command cmd) w.floor)) [
        | inl k ↦ absurd (cc (rw k at h))
        | inr k ↦ verdict-IsAsked v e p k w.root refl (rw k at h)
      ]

  classified-IsAsked :
      (o : Option Verdict)
      → classify fuel cmd ≡ o
      → on_verdict w cmd o ≡ rewrites c note
      → IsAsked fuel w cmd c
  classified-IsAsked none e h = cc h
  classified-IsAsked (some (passthrough, reason)) e h = cc h
  classified-IsAsked (some (record_only, reason)) e h =
      intercept-IsAsked (record_only, reason) e (λ q. cc q) h
  classified-IsAsked (some (serve, reason)) e h = intercept-IsAsked (serve, reason) e (λ q. cc q) h

-- When the hook replaces a command, it is enabled and the payload has one; and either the self-test
-- forces the replacement, or the command was classified, not as PASSTHROUGH, was not known to be
-- fast, the state and the whole environment were measured, and the daemon answered. If it answered
-- HIT, the replacement prints the two blobs of that answer, the second to the standard error, and
-- ends with its exit code; if not, the replacement records the run of the command under its key,
-- with the state, the policy and the directory.
pub cmd_hook-IsAsked :
    (fuel : ℕ) (w : Surroundings) (c note : Text)
    → cmd_hook fuel w ≡ rewrites c note
    → (w.enabled ≡ true)
      × (cmd : Text) × (w.payload ≡ some cmd)
      × (((is_empty w.forced ≡ false) × (c ≡ w.forced)) ⊎ IsAsked fuel w cmd c)
unfolding cmd_hook
cmd_hook-IsAsked fuel w c note h = by_switch w.enabled refl h
  where
    by_force :
        (cmd : Text) (b : Bool)
        → is_empty w.forced ≡ b
        → (if b
            then on_verdict w cmd (classify fuel cmd)
            else rewrites w.forced (text "hindsight selftest"))
          ≡ rewrites c note
        → ((is_empty w.forced ≡ false) × (c ≡ w.forced)) ⊎ IsAsked fuel w cmd c
    by_force cmd false e g = inl (e, cc g)
    by_force cmd true e g = inr (classified-IsAsked fuel w cmd c note (classify fuel cmd) refl g)

    by_payload :
        (o : Option Text)
        → w.payload ≡ o
        → on_payload fuel w o ≡ rewrites c note
        → (cmd : Text) × (w.payload ≡ some cmd)
          × (((is_empty w.forced ≡ false) × (c ≡ w.forced)) ⊎ IsAsked fuel w cmd c)
    by_payload none e g = cc g
    by_payload (some cmd) e g = (cmd, e, by_force cmd (is_empty w.forced) refl g)

    by_switch :
        (b : Bool)
        → w.enabled ≡ b
        → (if b then on_payload fuel w w.payload else passes) ≡ rewrites c note
        → (w.enabled ≡ true)
          × (cmd : Text) × (w.payload ≡ some cmd)
          × (((is_empty w.forced ≡ false) × (c ≡ w.forced)) ⊎ IsAsked fuel w cmd c)
    by_switch false e g = cc g
    by_switch true e g = let (cmd, p, a) = by_payload w.payload refl g in (e, cmd, p, a)
