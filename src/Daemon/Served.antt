-- ===== src/Daemon/Served.antt =====
-- internal/hp/daemon.go: the answers of `handleLookup` against the records of the store.
use fasthack.Prelude.{
  ℕ, zero, suc, ◌-◌, ◌≡◌, ◌⊎◌, refl, inl, inr, Bool, true, false, ◌||◌, Option, none, some, List,
  [], ◌∷◌, Bool-cases, All, if◌then◌else◌, length, drop, ltb,
}
use fasthack.Text.{Text, text_eq, is_empty}
use fasthack.Record.{Record, ReadSet}
use fasthack.Store.{Store, cand_key, cand_key_of, lookup, candidates_of}
use fasthack.Store.Index.{MayServe, IsCandidate, ServedAt, IsIndexed}
use fasthack.Scope.{Repo}
use fasthack.Scope.Match.{scope_match_at}
use fasthack.Scope.Promotion.{IsPromotable, scope_match_at-IsPromotable}
use fasthack.Readset.Match.{scope_match_observed}
use fasthack.Readset.Promotion.{IsObserved, scope_match_observed-IsObserved}
use fasthack.Daemon.{LookupReq, LookupResp, Server, Moment}
use fasthack.Daemon.Leases.{peer_lease}
use fasthack.Daemon.Decisions.{hit_resp, miss_resp}
use fasthack.Daemon.Lookup.{
  Promotion, newest_first, last_candidates, promote, or_next, try_candidates, try_scope, Outcome,
  answered, blocked, miss, wait_phase, scope_phase, exact_phase, handle_lookup,
}

-- The key that the request's candidates stand under.
abbrev pub cand_key_of_request : LookupReq → Text
cand_key_of_request req = cand_key req.cmd_norm req.cwd_rel req.env_fp

module _ (repo : Repo) (req : LookupReq) where
  -- The record was made at another tree, and its difference from the request's cannot matter.
  abbrev pub IsScopedTo : Record → ℕ → Type 0
  IsScopedTo c tier =
      (cand_key_of c ≡ cand_key_of_request req)
      × MayServe c
      × (((tier ≡ 1) × IsPromotable repo c.tree_before req.tree req.cmd req.cwd_rel)
          ⊎ ((tier ≡ 2)
              × (rs : ReadSet) × (c.read_set ≡ some rs)
              × IsObserved repo c.tree_before req.tree rs))

  abbrev IsPromotion : Option Promotion → Type 0
  IsPromotion none = Unit
  IsPromotion (some (c, dec, tier)) = IsScopedTo c tier

  promote-IsPromotion :
      (c : Record) → IsCandidate (cand_key_of_request req) c → IsPromotion (promote repo req c)
  unfolding promote
  promote-IsPromotion c i =
      elim (Bool-cases (scope_match_at repo c.tree_before req.tree req.cmd req.cwd_rel).promoted) [
        | inl e ↦ rw e (i.place, i.served, inl (refl, scope_match_at-IsPromotable _ _ _ _ _ e))
        | inr e ↦
            elim (Bool-cases
              (scope_match_observed repo c.tree_before req.tree c.read_set).promoted) [
                | inl f ↦
                    let (rs, captured, observed) =
                      scope_match_observed-IsObserved repo c.tree_before req.tree c.read_set f in
                    rw (e, f) (i.place, i.served, inr (refl, rs, captured, observed))
                | inr f ↦ rw (e, f) tt
              ]
      ]

  or_next-IsPromotion :
      (o later : Option Promotion)
      → IsPromotion o
      → IsPromotion later
      → IsPromotion (or_next repo req o later)
  or_next-IsPromotion none later h k = k
  or_next-IsPromotion (some p) later h k = h

  candidates-IsPromotion :
      (cands : List Record)
      → All (IsCandidate (cand_key_of_request req)) cands
      → IsPromotion (try_candidates repo req cands)
  unfolding try_candidates
  candidates-IsPromotion [] h = tt
  candidates-IsPromotion (c ∷ cands) h = elim (Bool-cases (text_eq c.tree_before req.tree)) [
    | inl e ↦ rw e (candidates-IsPromotion cands h.1)
    | inr e ↦ rw e (
        or_next-IsPromotion (promote repo req c) (try_candidates repo req cands)
          (promote-IsPromotion c h.0) (candidates-IsPromotion cands h.1))
  ]

module _ (P : Record → Type 0) where
  All-drop : (n : ℕ) (rs : List Record) → All P rs → All P (drop n rs)
  All-drop zero rs h = h
  All-drop (suc n) [] h = tt
  All-drop (suc n) (r ∷ rs) h = All-drop n rs h.1

  All-last_candidates : (rs : List Record) → All P rs → All P (last_candidates rs)
  unfolding last_candidates
  All-last_candidates rs h = elim (Bool-cases (ltb 8 (length rs))) [
    | inl e ↦ rw e (All-drop (length rs - 8) rs h)
    | inr e ↦ rw e h
  ]

  All-newest_first : (rs acc : List Record) → All P rs → All P acc → All P (newest_first rs acc)
  unfolding newest_first
  All-newest_first [] acc h k = k
  All-newest_first (r ∷ rs) acc h k = All-newest_first rs (r ∷ acc) h.1 (h.0, k)

module _ (repo : Repo) (req : LookupReq) (s : Store) (i : IsIndexed s) where
  scope-IsPromotion : IsPromotion repo req (try_scope repo req s)
  unfolding try_scope candidates_of
  scope-IsPromotion = elim (Bool-cases (is_empty req.repo_root || is_empty req.tree)) [
    | inl e ↦ rw e tt
    | inr e ↦
        let P : Record → Type 0 = IsCandidate (cand_key_of_request req) in
        rw e (
          candidates-IsPromotion repo req _ (
            All-newest_first P _ [] (All-last_candidates P _ (i.placed (cand_key_of_request req)))
              tt))
  ]

-- The answer gives the record's output.
abbrev pub IsAnswerOf : Record → LookupResp → Type 0
IsAnswerOf src resp =
    (resp.exit_code ≡ src.exit_code)
    × (resp.stdout_blob ≡ src.stdout_blob)
    × (resp.stderr_blob ≡ src.stderr_blob)

-- The answer is a MISS, or the output of a record that may be served, which has the request's key
-- or is scoped to the request.
abbrev pub IsJustified : Repo → LookupReq → Outcome → Type 0
IsJustified repo req (blocked id) = Unit
IsJustified repo req (answered resp) =
    (resp ≡ miss_resp resp.waited_ms)
    ⊎ ((req.serve ≡ true)
        × (src : Record) × IsAnswerOf src resp
        × (((resp.tier ≡ 0) × (src.key ≡ req.key) × MayServe src)
            ⊎ IsScopedTo repo req src resp.tier))

module _ (repo : Repo) (m : Moment) (req : LookupReq) (sv : Server) where
  miss-IsJustified : (waited : ℕ) → IsJustified repo req (miss repo m req waited sv).0
  unfolding miss miss_resp
  miss-IsJustified waited = inl refl

  wait-IsJustified : (o : Option ℕ) → IsJustified repo req (wait_phase repo m req sv o).0
  wait-IsJustified none = miss-IsJustified 0
  wait-IsJustified (some id) = tt

  scope-IsJustified :
      (o : Option Promotion)
      → req.serve ≡ true
      → IsPromotion repo req o
      → IsJustified repo req (scope_phase repo m req sv o).0
  unfolding hit_resp
  scope-IsJustified none e h = wait-IsJustified (peer_lease sv req.key)
  scope-IsJustified (some (c, dec, tier)) e h = inr (e, c, (refl, refl, refl), inr h)

  exact-IsJustified :
      (o : Option Record)
      → req.serve ≡ true
      → ServedAt req.key o
      → IsPromotion repo req (try_scope repo req sv.store)
      → IsJustified repo req (exact_phase repo m req sv o).0
  unfolding hit_resp
  exact-IsJustified none e h k = scope-IsJustified (try_scope repo req sv.store) e k
  exact-IsJustified (some r) e h k = inr (e, r, (refl, refl, refl), inl (refl, h.0, h.1))

-- With an indexed store, `handleLookup` waits, answers MISS, or, if the request asks to be served,
-- answers with the output of a record that was recorded as servable and is not refuted: one with the
-- request's key, or one with the request's command, directory and environment that tier 1 or tier 2
-- promotes from its tree to the request's.
pub handle_lookup-IsJustified :
    (repo : Repo) (m : Moment) (req : LookupReq) (sv : Server)
    → IsIndexed sv.store
    → IsJustified repo req (handle_lookup repo m req sv).0
unfolding handle_lookup lookup
handle_lookup-IsJustified repo m req sv i = by_serve req.serve refl
  where
    by_serve :
        (b : Bool)
        → req.serve ≡ b
        → IsJustified repo req
            (if b
              then exact_phase repo m req sv (lookup sv.store req.key)
              else miss repo m req 0 sv).0
    by_serve false e = miss-IsJustified repo m req sv 0
    by_serve true e =
        exact-IsJustified repo m req sv (lookup sv.store req.key) e (i.served req.key)
          (scope-IsPromotion repo req sv.store i)
