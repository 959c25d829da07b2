-- ===== src/Scope/Promotion.antt =====
-- What `ScopeMatchAt` (internal/hp/scope.go) has established when it promotes a record.
use fasthack.Prelude.{
  ◌≡◌, refl, inl, inr, true, false, Option, none, some, List, [], ◌∷◌, Bool-cases, Option-cases,
  All,
}
use fasthack.Text.{Text, text_eq, is_blank}
use fasthack.Policy.Syntax.{split_segments}
use fasthack.Scope.{Repo, ScopeDecision, Scoped, found, refused}
use fasthack.Scope.Paths.{
  scope_paths_conflict, scope_clean_cwd, is_tree_name, is_global, scope_changed_paths,
  first_globally_relevant,
}
use fasthack.Scope.Args.{command_scope_paths}
use fasthack.Scope.SelfContained.{EachIsListed, scope_self_contained_head-EachIsListed}
use fasthack.Scope.Match.{
  first_conflict, conflict_in, refusal, disjoint, scoped, unless_global, match_changed, match_trees,
  match_head, match_cwd, scope_match_at,
}

-- No changed path is in conflict with a path of the scope.
abbrev pub AreDisjoint : List Text → List Text → Type 0
AreDisjoint scope changed = All (λ s. All (λ c. scope_paths_conflict s c ≡ false) changed) scope

first_conflict-none :
    (s : Text) (changed : List Text)
    → first_conflict s changed ≡ none
    → All (λ c. scope_paths_conflict s c ≡ false) changed
unfolding first_conflict
first_conflict-none s [] h = tt
first_conflict-none s (c ∷ changed) h = elim (Bool-cases (scope_paths_conflict s c)) [
  | inl e ↦ absurd (cc (rw e at h))
  | inr e ↦ (e, first_conflict-none s changed (rw e at h))
]

conflict_in-AreDisjoint :
    (scope changed : List Text) → conflict_in scope changed ≡ none → AreDisjoint scope changed
unfolding conflict_in
conflict_in-AreDisjoint [] changed h = tt
conflict_in-AreDisjoint (s ∷ scope) changed h = elim (Option-cases (first_conflict s changed)) [
  | inr (c, e) ↦ absurd (cc (rw e at h))
  | inl e ↦ (first_conflict-none s changed e, conflict_in-AreDisjoint scope changed (rw e at h))
]

pub first_globally_relevant-none :
    (changed : List Text)
    → first_globally_relevant changed ≡ none
    → All (λ c. is_global c ≡ false) changed
unfolding first_globally_relevant
first_globally_relevant-none [] h = tt
first_globally_relevant-none (c ∷ changed) h = elim (Bool-cases (is_global c)) [
  | inl e ↦ absurd (cc (rw e at h))
  | inr e ↦ (e, first_globally_relevant-none changed (rw e at h))
]

-- The diff and the scope that carry a promotion.
pub record Evidence (repo : Repo) (recorded_tree current_tree cmd cwd : Text) : Type 0 where
  pub changed : List Text
  pub scope : List Text
  pub diffed : scope_changed_paths repo recorded_tree current_tree ≡ found changed
  pub some_change : (changed ≡ []) → ⊥
  pub local : All (λ c. is_global c ≡ false) changed
  pub bounded : command_scope_paths repo cwd changed cmd ≡ found scope
  pub apart : AreDisjoint scope changed

pub record IsPromotable (repo : Repo) (recorded_tree current_tree cmd cwd_rel : Text) : Type 0 where
  pub cwd : Text
  pub inside : scope_clean_cwd cwd_rel ≡ some cwd
  pub differ : text_eq recorded_tree current_tree ≡ false
  pub names : (is_tree_name recorded_tree ≡ true) × (is_tree_name current_tree ≡ true)
  pub self_contained : EachIsListed (split_segments cmd)
  pub evidence : Evidence repo recorded_tree current_tree cmd cwd

refusal_lem :
    (why : Text) (changed scope : List Text) → (refusal why changed scope).promoted ≡ false
unfolding refusal
refusal_lem why changed scope = refl

module _ (changed : List Text) where
  disjoint-none :
      (scope : List Text) (o : Option (Text × Text))
      → (disjoint changed scope o).promoted ≡ true
      → o ≡ none
  unfolding disjoint refusal
  disjoint-none scope none h = refl
  disjoint-none scope (some (s, c)) h = cc h

  scoped-found :
      (o : Scoped (List Text))
      → (scoped changed o).promoted ≡ true
      → (scope : List Text) × (o ≡ found scope) × AreDisjoint scope changed
  unfolding scoped refusal
  scoped-found (refused why) h = cc h
  scoped-found (found scope) h =
      (scope, refl, conflict_in-AreDisjoint scope changed (disjoint-none scope _ h))

  unless_global-none :
      (o : Option Text) (dec : ScopeDecision)
      → (unless_global changed o dec).promoted ≡ true
      → (o ≡ none) × (dec.promoted ≡ true)
  unfolding unless_global refusal
  unless_global-none none dec h = (refl, h)
  unless_global-none (some p) dec h = cc h

module _ (repo : Repo) (recorded_tree current_tree cmd : Text) where
  changed-Evidence :
      (cwd : Text) (o : Scoped (List Text))
      → (match_changed repo recorded_tree current_tree cmd cwd o).promoted ≡ true
      → scope_changed_paths repo recorded_tree current_tree ≡ o
      → Evidence repo recorded_tree current_tree cmd cwd
  unfolding match_changed refusal
  changed-Evidence cwd (refused err) h e = cc h
  changed-Evidence cwd (found []) h e = cc h
  changed-Evidence cwd (found (c ∷ changed)) h e =
      let (global, rest) = unless_global-none (c ∷ changed) _ _ h in
      let (scope, bounded, apart) = scoped-found (c ∷ changed) _ rest in
      record {
        changed = c ∷ changed;
        scope = scope;
        diffed = e;
        some_change = λ n. cc n;
        local = first_globally_relevant-none (c ∷ changed) global;
        bounded = bounded;
        apart = apart;
      }

  trees-Evidence :
      (cwd : Text)
      → (match_trees repo recorded_tree current_tree cmd cwd).promoted ≡ true
      → (is_tree_name recorded_tree ≡ true)
        × (is_tree_name current_tree ≡ true)
        × Evidence repo recorded_tree current_tree cmd cwd
  unfolding match_trees refusal
  trees-Evidence cwd h = elim (Bool-cases (is_tree_name recorded_tree)) [
    | inr a ↦ absurd (cc (rw a at h))
    | inl a ↦ elim (Bool-cases (is_tree_name current_tree)) [
      | inr b ↦ absurd (cc (rw (a, b) at h))
      | inl b ↦ (a, b, changed-Evidence cwd _ (rw (a, b) at h) refl)
    ]
  ]

  head-none :
      (cwd : Text) (o : Option Text)
      → (match_head repo recorded_tree current_tree cmd cwd o).promoted ≡ true
      → (o ≡ none) × ((match_trees repo recorded_tree current_tree cmd cwd).promoted ≡ true)
  unfolding match_head refusal
  head-none cwd none h = (refl, h)
  head-none cwd (some head) h = cc h

  cwd-some :
      (cwd_rel : Text) (o : Option Text)
      → scope_clean_cwd cwd_rel ≡ o
      → (match_cwd repo recorded_tree current_tree cmd cwd_rel o).promoted ≡ true
      → IsPromotable repo recorded_tree current_tree cmd cwd_rel
  unfolding match_cwd refusal
  cwd-some cwd_rel none e h = cc h
  cwd-some cwd_rel (some cwd) e h = elim (Bool-cases (text_eq recorded_tree current_tree)) [
    | inl d ↦ absurd (cc (rw d at h))
    | inr d ↦
        let (self, trees) = head-none cwd _ (rw d at h) in
        let (a, b, evidence) = trees-Evidence cwd trees in
        record {
          cwd = cwd;
          inside = e;
          differ = d;
          names = (a, b);
          self_contained = scope_self_contained_head-EachIsListed cmd self;
          evidence = evidence;
        }
  ]

-- A tier 1 promotion means: the working directory is inside the repository; the trees are two
-- different tree names; every segment of the command is blank, or closes its quotes and has no
-- head, or one that is `cd`, a filter behind a pipe, or in the table selfContainedReaders; git
-- named changed paths, none of which configures the toolchain; the arguments of the command make a
-- scope; and no path of the scope is in conflict with a changed path. What a head of the table
-- reads besides its arguments is not looked at: `md5sum -c` is promoted.
pub scope_match_at-IsPromotable :
    (repo : Repo) (recorded_tree current_tree cmd cwd_rel : Text)
    → (scope_match_at repo recorded_tree current_tree cmd cwd_rel).promoted ≡ true
    → IsPromotable repo recorded_tree current_tree cmd cwd_rel
unfolding scope_match_at refusal
scope_match_at-IsPromotable repo recorded_tree current_tree cmd cwd_rel h =
    elim (Bool-cases (is_blank repo.root)) [
      | inl b ↦ absurd (cc (rw b at h))
      | inr b ↦ cwd-some repo recorded_tree current_tree cmd cwd_rel _ refl (rw b at h)
    ]
