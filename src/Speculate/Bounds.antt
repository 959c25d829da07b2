-- ===== src/Speculate/Bounds.antt =====
-- internal/hp/speculate.go: the numbers of a suggestion.
use mathlib.Core.Option.{some-injective}
use native.Mathlib.Nat.{pow-zero, pow-suc}
use fasthack.Prelude.{
  ℕ, zero, suc, ◌+◌, ◌*◌, ◌^◌, ◌≤◌, ◌<◌, ◌≡◌, refl, inl, inr, true, false, Option, none, some, List,
  [], ◌∷◌, subst, arith, ltb, ◌==◌, if◌then◌else◌, Bool-cases, length, length-take, All,
}
use fasthack.Sort.{sort_by}
use fasthack.Store.{records}
use fasthack.Daemon.{Server}
use fasthack.Speculate.Learn.{Learned, learn_from_log}
use fasthack.Speculate.Suggest.{
  Ratio, Suggestion, Setup, less_ratio, capped, chance, times, suggestion, over_sites, worth_more,
  ranked, consider, suggest_from, suggestions,
}
use fasthack.Record.{Record}
use fasthack.Speculate.{CmdEvidence, SpecSite}
use fasthack.Speculate.Evidence.{slowest_of}
use fasthack.Speculate.Known.{IsSlowest, learn_from_log-IsSlowest}
use fasthack.Speculate.Useful.{Returns, IsClassified, suggest_from-Returns, consider-Returns}

-- The duration is that of the slowest run of the command that the log shows, the probability is a
-- fraction of at most 0.99, and the saving is that fraction of the duration.
pub record IsBounded (rs : List Record) (s : Suggestion) : Type 0 where
  pub slowest : s.duration_ms ≡ slowest_of s.cmd_norm rs 0
  pub proper : 0 < s.p.den
  pub likely : s.p.num * 100 ≤ 99 * s.p.den
  pub share : s.expected_ms.num ≡ s.p.num * s.duration_ms
  pub whole : s.expected_ms.den ≡ s.p.den
  pub saving : s.expected_ms.num * 100 ≤ 99 * s.expected_ms.den * s.duration_ms

mul_pos : (a b : ℕ) → 0 < a → 0 < b → 0 < a * b
mul_pos a b h k = grind arith

pow_pos : (t n : ℕ) → 0 < t → 0 < t ^ n
pow_pos t zero h = rw pow-zero (omega arith)
pow_pos t (suc n) h = rw pow-suc (mul_pos (t ^ n) t (pow_pos t n h) h)

capped_bounds :
    (r : Ratio) → 0 < r.den → (0 < (capped r).den) × ((capped r).num * 100 ≤ 99 * (capped r).den)
unfolding capped less_ratio
capped_bounds r h = elim (Bool-cases (ltb (99 * r.den) (r.num * 100))) [
  | inl e ↦ rw e (omega arith)
  | inr e ↦ rw e (ground arith)
]

mul_mono : (w h m : ℕ) → w ≤ m → w * h ≤ m * h
mul_mono w h m p = grind arith

times_bounds : (a d n : ℕ) → a * 100 ≤ 99 * d → a * n * 100 ≤ 99 * d * n
times_bounds a d n h = omega (arith, mul_mono (a * 100) n (99 * d) h)

chance_bounds :
    (seen trees agents : ℕ)
    → (trees == 0) ≡ false
    → (0 < (chance seen trees agents).den)
      × ((chance seen trees agents).num * 100 ≤ 99 * (chance seen trees agents).den)
unfolding chance
chance_bounds seen trees agents h = capped_bounds _ (pow_pos trees (agents + 1) (ground arith))

suggest_from-nil :
    (w : Setup) (sv : Server) (l : Learned) (limit : ℕ)
    → (l.trees == 0) ≡ true
    → suggest_from w sv l limit ≡ some []
unfolding suggest_from
suggest_from-nil w sv l limit h = rw h refl

length-ranked :
    (limit : ℕ) (o : Option (List Suggestion)) (out : List Suggestion)
    → ranked limit o ≡ some out
    → length out ≤ limit
length-ranked limit none out h = absurd (cc h)
length-ranked limit (some x) out h =
    subst (λ y. length y ≤ limit) (some-injective _ _ h) (length-take limit (sort_by worth_more x))

length-suggest_from :
    (w : Setup) (sv : Server) (l : Learned) (limit : ℕ) (out : List Suggestion)
    → suggest_from w sv l limit ≡ some out
    → length out ≤ limit
unfolding suggest_from
length-suggest_from w sv l limit out h = elim (Bool-cases (l.trees == 0)) [
  | inl e ↦ subst (λ y. length y ≤ limit) (some-injective [] out (rw e at h)) (omega arith)
  | inr e ↦ length-ranked limit (over_sites w sv l l.sites) out (rw e at h)
]

All-both {ℓ} :
    {A : Type ℓ} (P Q : A → Type 0) (xs : List A) → All P xs → All Q xs → All (λ x. P x × Q x) xs
All-both P Q [] p q = tt
All-both P Q (x ∷ xs) (p, ps) (q, qs) = ((p, q), All-both P Q xs ps qs)

module _ (w : Setup) (sv : Server) (l : Learned) (rs : List Record) where
  -- A command with its slowest run, for which the classifier returns.
  abbrev IsUsable : CmdEvidence → Type 0
  IsUsable e = IsClassified w e × IsSlowest rs e

  consider-IsBounded :
      (l.trees == 0) ≡ false
      → (site : SpecSite) (e : CmdEvidence) → IsUsable e
      → Returns (IsBounded rs) (consider w sv l site e)
  unfolding suggestion times
  consider-IsBounded t site e (k, m) =
      consider-Returns (IsBounded rs) w sv l site e k (λ reason busy v free.
        let (proper, likely) = chance_bounds (length e.trees) l.trees (length site.agents) t in
        let p = chance (length e.trees) l.trees (length site.agents) in
        record {
          slowest = m;
          proper = proper;
          likely = likely;
          share = refl;
          whole = refl;
          saving = times_bounds p.num p.den e.max_ms likely;
        })

  suggest_from-IsBounded :
      (limit : ℕ) → All IsUsable l.cmds → Returns (IsBounded rs) (suggest_from w sv l limit)
  suggest_from-IsBounded limit u = elim (Bool-cases (l.trees == 0)) [
    | inl e ↦ ([], suggest_from-nil w sv l limit e, tt)
    | inr e ↦ suggest_from-Returns (IsBounded rs) IsUsable w sv l (consider-IsBounded e) limit u
  ]

-- Where the classifier returns for each command of the log, so does Suggestions, with at most
-- `limit` suggestions, ten where the limit is 0. Each has the duration of the slowest run of its
-- command, of those that a real agent demanded by a hit, a wait or a miss at a known tree, a
-- probability of at most 0.99, and a saving of that fraction of the duration.
pub suggestions_bounds :
    (w : Setup) (sv : Server) (limit : ℕ)
    → All (IsClassified w) (learn_from_log (records sv.store)).cmds
    → (out : List Suggestion) × (suggestions w sv limit ≡ some out)
      × (length out ≤ (if limit == 0 then 10 else limit))
      × All (IsBounded (records sv.store)) out
unfolding suggestions
suggestions_bounds w sv limit c =
    let rs = records sv.store in
    let l = learn_from_log rs in
    let n = if limit == 0 then 10 else limit in
    let usable = All-both (IsClassified w) (IsSlowest rs) l.cmds c (learn_from_log-IsSlowest rs) in
    let (out, e, a) = suggest_from-IsBounded w sv l rs n usable in
    (out, e, length-suggest_from w sv l n out e, a)
