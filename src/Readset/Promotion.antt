-- ===== src/Readset/Promotion.antt =====
-- What `ScopeMatchObserved` (internal/hp/readset.go) has established when it promotes a record.
use fasthack.Prelude.{
  ◌≡◌, ◌⊎◌, refl, inl, inr, true, false, not, ◌||◌, Option, none, some, List, [], ◌∷◌, arith,
  Bool-cases, Option-cases, All,
}
use fasthack.Text.{Text, text_eq, is_blank}
use fasthack.Text.Laws.{text_eq_sound}
use fasthack.Policy.Heads.{serve, to_string}
use fasthack.Scope.{Repo, Scoped, found, refused}
use fasthack.Scope.Paths.{
  scope_paths_conflict, is_tree_name, is_global, scope_changed_paths, first_globally_relevant,
}
use fasthack.Scope.Match.{refusal}
use fasthack.Scope.Promotion.{first_globally_relevant-none}
use fasthack.Record.{ReadSet}
use fasthack.Readset.Observed.{MethodInfo, method_info, observes_ext}
use fasthack.Readset.Added.{first_unsafe_addition, read_set_added_paths}
use fasthack.Readset.Match.{
  length_zero, is_in, first_read, read_among, unseen, match_seen, match_read, match_global,
  match_safe, match_added, match_diff, match_known, match_method, match_set, scope_match_observed,
}
use fasthack.Readset.Harmless.{IsHarmless, first_unsafe_addition-IsHarmless}

first_read-none :
    (paths : List Text) (c : Text)
    → first_read paths c ≡ none
    → All (λ s. scope_paths_conflict s c ≡ false) paths
unfolding first_read
first_read-none [] c h = tt
first_read-none (s ∷ paths) c h = elim (Bool-cases (scope_paths_conflict s c)) [
  | inl e ↦ absurd (cc (rw e at h))
  | inr e ↦ (e, first_read-none paths c (rw e at h))
]

read_among-none :
    (paths changed : List Text)
    → read_among paths changed ≡ none
    → All (λ c. All (λ s. scope_paths_conflict s c ≡ false) paths) changed
unfolding read_among
read_among-none paths [] h = tt
read_among-none paths (c ∷ changed) h = elim (Option-cases (first_read paths c)) [
  | inr (s, e) ↦ absurd (cc (rw e at h))
  | inl e ↦ (first_read-none paths c e, read_among-none paths changed (rw e at h))
]

unseen-none :
    (info : MethodInfo) (added changed : List Text)
    → unseen info added changed ≡ none
    → All (λ c. (is_in added c ≡ true) ⊎ (observes_ext (some info) c ≡ true)) changed
unfolding unseen
unseen-none info added [] h = tt
unseen-none info added (c ∷ changed) h = elim (Bool-cases (is_in added c)) [
  | inl a ↦ (inl a, unseen-none info added changed (rw a at h))
  | inr a ↦ elim (Bool-cases (observes_ext (some info) c)) [
    | inl e ↦ (inr e, unseen-none info added changed (rw (a, e) at h))
    | inr e ↦ absurd (cc (rw (a, e) at h))
  ]
]

-- What the diff and the read set show.
pub record Unaffected (repo : Repo) (recorded_tree current_tree : Text) (rs : ReadSet)
    (info : MethodInfo) : Type 0 where
  pub changed : List Text
  pub added : List Text
  pub diffed : scope_changed_paths repo recorded_tree current_tree ≡ found changed
  pub listed : read_set_added_paths repo recorded_tree current_tree ≡ found added
  pub some_change : (changed ≡ []) → ⊥
  pub harmless : All (IsHarmless rs) added
  pub local : All (λ c. is_global c ≡ false) changed
  pub unread : All (λ c. All (λ s. scope_paths_conflict s c ≡ false) rs.paths) changed
  pub visible : All (λ c. (is_in added c ≡ true) ⊎ (observes_ext (some info) c ≡ true)) changed

module _ (rs : ReadSet) (info : MethodInfo) where
  seen-none :
      (changed : List Text) (o : Option Text)
      → (match_seen rs info changed o).promoted ≡ true
      → o ≡ none
  unfolding match_seen refusal
  seen-none changed none h = refl
  seen-none changed (some c) h = cc h

  read-none :
      (changed added : List Text) (o : Option (Text × Text))
      → (match_read rs info changed added o).promoted ≡ true
      → (o ≡ none) × (unseen info added changed ≡ none)
  unfolding match_read refusal
  read-none changed added none h = (refl, seen-none changed _ h)
  read-none changed added (some x) h = cc h

  global-none :
      (changed added : List Text) (o : Option Text)
      → (match_global rs info changed added o).promoted ≡ true
      → (o ≡ none) × (read_among rs.paths changed ≡ none) × (unseen info added changed ≡ none)
  unfolding match_global refusal
  global-none changed added none h = let (r, u) = read-none changed added _ h in (refl, r, u)
  global-none changed added (some p) h = cc h

  safe-none :
      (changed added : List Text) (o : Option (Text × Text))
      → (match_safe rs info changed added o).promoted ≡ true
      → (o ≡ none)
        × (first_globally_relevant changed ≡ none)
        × (read_among rs.paths changed ≡ none)
        × (unseen info added changed ≡ none)
  unfolding match_safe refusal
  safe-none changed added none h = let (g, r, u) = global-none changed added _ h in (refl, g, r, u)
  safe-none changed added (some p) h = cc h

module _ (rs : ReadSet) (info : MethodInfo) (recorded_tree current_tree : Text) where
  added-found :
      (changed : List Text) (o : Scoped (List Text))
      → (match_added rs info recorded_tree current_tree changed o).promoted ≡ true
      → (added : List Text) × (o ≡ found added)
        × (first_unsafe_addition rs added ≡ none)
        × (first_globally_relevant changed ≡ none)
        × (read_among rs.paths changed ≡ none)
        × (unseen info added changed ≡ none)
  unfolding match_added refusal
  added-found changed (refused err) h = cc h
  added-found changed (found added) h =
      let (a, g, r, u) = safe-none rs info changed added _ h in (added, refl, a, g, r, u)

  diff-Unaffected :
      (repo : Repo) (o : Scoped (List Text))
      → scope_changed_paths repo recorded_tree current_tree ≡ o
      → (match_diff rs info recorded_tree current_tree repo o).promoted ≡ true
      → Unaffected repo recorded_tree current_tree rs info
  unfolding match_diff refusal
  diff-Unaffected repo (refused err) e h = cc h
  diff-Unaffected repo (found []) e h = cc h
  diff-Unaffected repo (found (c ∷ changed)) e h =
      let (added, l, a, g, r, u) = added-found (c ∷ changed) _ h in
      record {
        changed = c ∷ changed;
        added = added;
        diffed = e;
        listed = l;
        some_change = λ n. cc n;
        harmless = first_unsafe_addition-IsHarmless rs added a;
        local = first_globally_relevant-none (c ∷ changed) g;
        unread = read_among-none rs.paths (c ∷ changed) r;
        visible = unseen-none info added (c ∷ changed) u;
      }

-- A read set that carries a promotion.
pub record IsObserved (repo : Repo) (recorded_tree current_tree : Text) (rs : ReadSet)
    : Type 0 where
  pub info : MethodInfo
  pub known : method_info rs.method ≡ some info
  pub servable : rs.policy ≡ to_string serve
  pub some_path : length_zero rs.paths ≡ false
  pub differ : text_eq recorded_tree current_tree ≡ false
  pub names : (is_tree_name recorded_tree ≡ true) × (is_tree_name current_tree ≡ true)
  pub unaffected : Unaffected repo recorded_tree current_tree rs info

module _ (repo : Repo) (recorded_tree current_tree : Text) (rs : ReadSet) where
  known-IsObserved :
      (info : MethodInfo)
      → method_info rs.method ≡ some info
      → (match_known rs info recorded_tree current_tree repo).promoted ≡ true
      → IsObserved repo recorded_tree current_tree rs
  unfolding match_known refusal
  known-IsObserved info k h = elim (Bool-cases (text_eq rs.policy (to_string serve))) [
    | inr p ↦ absurd (cc (rw p at h))
    | inl p ↦ elim (Bool-cases (length_zero rs.paths)) [
      | inl l ↦ absurd (cc (rw (p, l) at h))
      | inr l ↦ elim (Bool-cases (text_eq recorded_tree current_tree)) [
        | inl d ↦ absurd (cc (rw (p, l, d) at h))
        | inr d ↦
            elim (Bool-cases
              (not (is_tree_name recorded_tree) || not (is_tree_name current_tree))) [
                | inl n ↦ absurd (cc (rw (p, l, d, n) at h))
                | inr n ↦ record {
                  info = info;
                  known = k;
                  servable = text_eq_sound rs.policy (to_string serve) p;
                  some_path = l;
                  differ = d;
                  names = ground arith;
                  unaffected =
                      diff-Unaffected rs info recorded_tree current_tree repo _ refl
                        (rw (p, l, d, n) at h);
                }
              ]
      ]
    ]
  ]

  method-IsObserved :
      (o : Option MethodInfo)
      → method_info rs.method ≡ o
      → (match_method repo recorded_tree current_tree rs o).promoted ≡ true
      → IsObserved repo recorded_tree current_tree rs
  unfolding match_method refusal
  method-IsObserved none k h = cc h
  method-IsObserved (some info) k h = known-IsObserved info k h

-- A promotion means: a read set was captured, by a known method, of a command classified SERVE, and
-- it is not empty; the trees are two different tree names; git named changed paths, none of which
-- configures the toolchain, is in conflict with a path of the set, or, unless it was added, is of a
-- kind that the method does not see; and no added path is picked up by name, by a discovery pattern,
-- by walking a directory of tests, or as a new module on the import path.
pub scope_match_observed-IsObserved :
    (repo : Repo) (recorded_tree current_tree : Text) (o : Option ReadSet)
    → (scope_match_observed repo recorded_tree current_tree o).promoted ≡ true
    → (rs : ReadSet) × (o ≡ some rs) × IsObserved repo recorded_tree current_tree rs
unfolding scope_match_observed match_set refusal
scope_match_observed-IsObserved repo recorded_tree current_tree o h =
    elim (Bool-cases (is_blank repo.root)) [
      | inl b ↦ absurd (cc (rw b at h))
      | inr b ↦ captured o (rw b at h)
    ]
  where
    captured :
        (s : Option ReadSet)
        → (match_set repo recorded_tree current_tree s).promoted ≡ true
        → (rs : ReadSet) × (s ≡ some rs) × IsObserved repo recorded_tree current_tree rs
    captured none r = cc r
    captured (some rs) r = (rs, refl, method-IsObserved repo recorded_tree current_tree rs _ refl r)
