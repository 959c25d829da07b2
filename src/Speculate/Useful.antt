-- ===== src/Speculate/Useful.antt =====
-- internal/hp/speculate.go: what holds of every suggestion.
use fasthack.Prelude.{
  ℕ, ◌≤◌, ◌≡◌, ◌≢◌, refl, sym, subst, inl, inr, Bool, true, false, Option, none, some, List, [],
  ◌∷◌, arith, ◌==◌, if◌then◌else◌, Bool-cases, ◌++◌, take, All, All-take, All-append, Any,
}
use mathlib.Core.Option.{some-injective}
use fasthack.Text.{Text}
use fasthack.Text.Laws.{text_eq_refl}
use fasthack.Dict.{get}
use fasthack.Dict.Laws.{get-put}
use fasthack.Sort.{sort_by, All-sort_by}
use fasthack.Policy.Syntax.{split_segments, has_command_substitution}
use fasthack.Policy.Heads.{passthrough, record_only, serve, Verdict}
use fasthack.Policy.Classify.{classify}
use fasthack.Policy.Safe.{EachIsSafe, classify-EachIsSafe}
use fasthack.Record.{Record}
use fasthack.Store.{lookup, records}
use fasthack.Daemon.{Server}
use fasthack.Daemon.Leases.{is_true}
use fasthack.Speculate.{CmdEvidence, SpecSite, Model, default_suggest_limit}
use fasthack.Speculate.Learn.{
  Learned, is_attempt, note_attempt, is_demand, note_demand, learn_record, learn_records,
  empty_model, summary, learn_from_log,
}
use fasthack.Speculate.Suggest.{
  Suggestion, Setup, is_some, speculation_blocked, suggestion, is_taken, site_key, suggest_verdict,
  is_idle, consider, and_then, ranked, over_cmds, over_sites, worth_more, suggest_from, suggestions,
}

-- The loop returns, and the predicate holds of every suggestion that it makes.
abbrev pub Returns : (Suggestion → Type 0) → Option (List Suggestion) → Type 0
Returns P o = (out : List Suggestion) × (o ≡ some out) × All P out

Returns-and_then :
    (P : Suggestion → Type 0) (o q : Option (List Suggestion))
    → Returns P o
    → Returns P q
    → Returns P (and_then o q)
Returns-and_then P none q (out, e, a) r = absurd (cc e)
Returns-and_then P (some x) none a (more, f, b) = absurd (cc f)
Returns-and_then P (some x) (some y) (out, e, a) (more, f, b) = (
  x ++ y,
  refl,
  All-append P x y (subst (All P) (sym (some-injective _ _ e)) a)
      (subst (All P) (sym (some-injective _ _ f)) b),
)

-- What holds of every suggestion that the loop makes of a known command holds of the list that is
-- returned.
module _ (P : Suggestion → Type 0) (Q : CmdEvidence → Type 0) (w : Setup) (sv : Server)
    (l : Learned)
    (each : (site : SpecSite) (e : CmdEvidence) → Q e → Returns P (consider w sv l site e)) where
  over_cmds-Returns :
      (site : SpecSite) (es : List CmdEvidence) → All Q es → Returns P (over_cmds w sv l site es)
  unfolding over_cmds
  over_cmds-Returns site [] k = ([], refl, tt)
  over_cmds-Returns site (e ∷ es) (k, ks) =
      Returns-and_then P (consider w sv l site e) (over_cmds w sv l site es) (each site e k)
        (over_cmds-Returns site es ks)

  over_sites-Returns : (sites : List SpecSite) → All Q l.cmds → Returns P (over_sites w sv l sites)
  unfolding over_sites
  over_sites-Returns [] k = ([], refl, tt)
  over_sites-Returns (site ∷ sites) k =
      Returns-and_then P (over_cmds w sv l site l.cmds) (over_sites w sv l sites)
        (over_cmds-Returns site l.cmds k) (over_sites-Returns sites k)

  ranked-Returns :
      (limit : ℕ) (o : Option (List Suggestion)) → Returns P o → Returns P (ranked limit o)
  ranked-Returns limit none (out, e, a) = absurd (cc e)
  ranked-Returns limit (some x) (out, e, a) = (
    take limit (sort_by worth_more x),
    refl,
    All-take P limit (sort_by worth_more x)
        (All-sort_by P worth_more x (subst (All P) (sym (some-injective _ _ e)) a)),
  )

  pub suggest_from-Returns : (limit : ℕ) → All Q l.cmds → Returns P (suggest_from w sv l limit)
  unfolding suggest_from
  suggest_from-Returns limit k = elim (Bool-cases (l.trees == 0)) [
    | inl e ↦ rw e ([], refl, tt)
    | inr e ↦ rw e (ranked-Returns limit (over_sites w sv l l.sites) (over_sites-Returns l.sites k))
  ]

-- The classifier returns for the command.
abbrev pub IsClassified : Setup → CmdEvidence → Type 0
IsClassified w e = (v : Verdict) × (classify w.fuel e.cmd ≡ some v)

module _ (P : Suggestion → Type 0) (w : Setup) (sv : Server) (l : Learned) (site : SpecSite)
    (e : CmdEvidence) where
  -- A suggestion has passed each guard.
  pub consider-Returns :
      IsClassified w e
      → ((reason : Text)
          → is_idle w.floor e ≡ false
          → classify w.fuel e.cmd ≡ some (serve, reason)
          → is_taken sv l (site_key w site e) ≡ false
          → P (suggestion w l.trees site e (site_key w site e) reason))
      → Returns P (consider w sv l site e)
  unfolding consider suggest_verdict
  consider-Returns (v, c) holds = elim (Bool-cases (is_idle w.floor e)) [
    | inl idle ↦ rw idle ([], refl, tt)
    | inr busy ↦ rw busy (verdict busy (classify w.fuel e.cmd) v c refl)
  ]
    where
      free :
          (reason : Text) (b : Bool)
          → is_taken sv l (site_key w site e) ≡ b
          → is_idle w.floor e ≡ false
          → classify w.fuel e.cmd ≡ some (serve, reason)
          → Returns P
              (some (if b then [] else suggestion w l.trees site e (site_key w site e) reason ∷ []))
      free reason true t busy c = ([], refl, tt)
      free reason false t busy c = (_, refl, (holds reason busy c t, tt))

      verdict :
          is_idle w.floor e ≡ false
          → (o : Option Verdict) (v : Verdict) → o ≡ some v
          → classify w.fuel e.cmd ≡ o
          → Returns P (suggest_verdict w sv l site e o)
      verdict busy none v n c = absurd (cc n)
      verdict busy (some (passthrough, reason)) v n c = ([], refl, tt)
      verdict busy (some (record_only, reason)) v n c = ([], refl, tt)
      verdict busy (some (serve, reason)) v n c =
          free reason (is_taken sv l (site_key w site e)) refl busy c

-- A suggestion names a command that `Classify` finds safe, at the key that the hook asks for, and
-- nothing answers that key now: it is neither cached, nor under lease, nor known as unservable.
pub record IsUseful (w : Setup) (sv : Server) (s : Suggestion) : Type 0 where
  pub plain : has_command_substitution s.cmd ≡ false
  pub safe : EachIsSafe (split_segments s.cmd)
  pub worthwhile : w.floor ≤ s.duration_ms
  pub fresh : lookup sv.store s.key ≡ none
  pub free : get sv.leases s.key ≡ none
  pub servable : is_true (get sv.unservable s.key) ≡ false

is_some-none {ℓ} : {A : Type ℓ} (o : Option A) → is_some o ≡ false → o ≡ none
is_some-none none h = refl
is_some-none (some a) h = absurd (cc h)

idle_floor : (floor : ℕ) (e : CmdEvidence) → is_idle floor e ≡ false → floor ≤ e.max_ms
unfolding is_idle
idle_floor floor e h = ground arith

untaken :
    (sv : Server) (l : Learned) (k : Text)
    → is_taken sv l k ≡ false
    → (is_some (lookup sv.store k) ≡ false)
      × (is_some (get sv.leases k) ≡ false)
      × (is_true (get sv.unservable k) ≡ false)
unfolding is_taken speculation_blocked
untaken sv l k t = ground arith

suggestion-IsUseful :
    (w : Setup) (sv : Server) (l : Learned) (site : SpecSite) (e : CmdEvidence) (reason : Text)
    → is_idle w.floor e ≡ false
    → classify w.fuel e.cmd ≡ some (serve, reason)
    → is_taken sv l (site_key w site e) ≡ false
    → IsUseful w sv (suggestion w l.trees site e (site_key w site e) reason)
unfolding suggestion
suggestion-IsUseful w sv l site e reason busy c t =
    let k = site_key w site e in
    let (cached, held, refused) = untaken sv l k t in
    let (plain, safe) = classify-EachIsSafe w.fuel e.cmd reason c in
    record {
      plain = plain;
      safe = safe;
      worthwhile = idle_floor w.floor e busy;
      fresh = is_some-none (lookup sv.store k) cached;
      free = is_some-none (get sv.leases k) held;
      servable = refused;
    }

-- Where the classifier returns for each command of the log, so does Suggestions, and every
-- suggestion names a command in which nothing is substituted and each segment is blank, a plain
-- `cd`, or safe in the sense of Policy.Safe, that took at least the floor, and whose key is not
-- cached, not under lease and not known as unservable.
pub suggestions-IsUseful :
    (w : Setup) (sv : Server) (limit : ℕ)
    → All (IsClassified w) (learn_from_log (records sv.store)).cmds
    → Returns (IsUseful w sv) (suggestions w sv limit)
unfolding suggestions
suggestions-IsUseful w sv limit c =
    let l = learn_from_log (records sv.store) in
    suggest_from-Returns (IsUseful w sv) (IsClassified w) w sv l
      (λ site e k.
        consider-Returns (IsUseful w sv) w sv l site e k (suggestion-IsUseful w sv l site e))
      (if limit == 0 then default_suggest_limit else limit) c

module _ (k : Text) where
  abbrev WasTried : Model → Type 0
  WasTried m = get m.attempted k ≡ some true

  note_attempt-WasTried : (r : Record) (m : Model) → WasTried m → WasTried (note_attempt r m)
  unfolding note_attempt
  note_attempt-WasTried r m h = elim (Bool-cases (is_attempt r)) [
    | inl e ↦ rw e (rw get-put (ground arith))
    | inr e ↦ rw e h
  ]

  learn_record-WasTried :
      (r : Record) (m : Model) → WasTried (note_attempt r m) → WasTried (learn_record r m)
  unfolding learn_record note_demand
  learn_record-WasTried r m h = elim (Bool-cases (is_demand r)) [ inl e ↦ rw e h | inr e ↦ rw e h ]

  learn_records-WasTried :
      (rs : List Record) (m : Model) → WasTried m → WasTried (learn_records rs m)
  unfolding learn_records
  learn_records-WasTried [] m h = h
  learn_records-WasTried (r ∷ rs) m h =
      learn_records-WasTried rs (learn_record r m)
        (learn_record-WasTried r m (note_attempt-WasTried r m h))

  own_attempt-WasTried :
      (r : Record) (m : Model) → is_attempt r ≡ true → r.key ≡ k → WasTried (note_attempt r m)
  unfolding note_attempt
  own_attempt-WasTried r m a e = rw (a, e) (rw get-put (ground (arith, text_eq_refl k)))

  records-WasTried :
      (r : Record) (rs : List Record) (m : Model)
      → is_attempt r ≡ true
      → r.key ≡ k
      → Any (λ c. c ≡ r) rs
      → WasTried (learn_records rs m)
  unfolding learn_records
  records-WasTried r [] m a e i = absurd i
  records-WasTried r (c ∷ rs) m a e (inl same) = learn_records-WasTried rs (learn_record c m) (
      learn_record-WasTried c m
        (subst (λ x. WasTried (note_attempt x m)) (sym same) (own_attempt-WasTried r m a e)))
  records-WasTried r (c ∷ rs) m a e (inr i) = records-WasTried r rs (learn_record c m) a e i

taken_tried :
    (sv : Server) (l : Learned) (k : Text) → get l.attempted k ≡ some true → is_taken sv l k ≡ true
unfolding is_taken
taken_tried sv l k h = rw h refl

-- No suggestion has a key that is tried already: the key of a record of the log whose decision is
-- neither empty nor VERIFY, whoever wrote it and whatever came of it, is the key of no suggestion.
pub suggestions-untried :
    (w : Setup) (sv : Server) (limit : ℕ) (r : Record)
    → All (IsClassified w) (learn_from_log (records sv.store)).cmds
    → Any (λ c. c ≡ r) (records sv.store)
    → is_attempt r ≡ true
    → Returns (λ s. r.key ≢ s.key) (suggestions w sv limit)
unfolding suggestions learn_from_log summary suggestion
suggestions-untried w sv limit r known i a =
    let l = learn_from_log (records sv.store) in
    suggest_from-Returns (λ s. r.key ≢ s.key) (IsClassified w) w sv l
      (λ site e k.
        consider-Returns (λ s. r.key ≢ s.key) w sv l site e k
          (λ reason busy c t same. cc (
            t,
            taken_tried sv l (site_key w site e)
                (records-WasTried (site_key w site e) r (records sv.store) empty_model a same i),
          )))
      (if limit == 0 then default_suggest_limit else limit) known
