-- ===== src/Readset/Match.antt =====
-- internal/hp/readset.go: `ScopeMatchObserved`.
use fasthack.Prelude.{
  Bool, true, false, not, ◌||◌, Option, none, some, List, [], ◌∷◌, ◌++◌, length, if◌then◌else◌,
}
use fasthack.Text.{Text, text, text_eq, is_blank}
use fasthack.Text.Order.{itoa, quote}
use fasthack.Policy.Heads.{serve, to_string}
use fasthack.Scope.{Repo, ScopeDecision, Scoped, found, refused}
use fasthack.Scope.Paths.{
  scope_paths_conflict, is_tree_name, scope_changed_paths, first_globally_relevant,
}
use fasthack.Scope.Match.{refusal}
use fasthack.Record.{ReadSet}
use fasthack.Readset.Observed.{MethodInfo, method_info, observes_ext}
use fasthack.Readset.Added.{first_unsafe_addition, read_set_added_paths, read_set_policy_name}

-- len(paths) == 0
abbrev pub length_zero : List Text → Bool
length_zero [] = true
length_zero (p ∷ ps) = false

-- isAdded[c]
unfoldable pub is_in : List Text → Text → Bool
is_in [] c = false
is_in (a ∷ added) c = text_eq a c || is_in added c

-- The first path of the set in conflict with `c`.
unfoldable pub first_read : List Text → Text → Option Text
first_read [] c = none
first_read (s ∷ paths) c =
    let later = first_read paths c in if scope_paths_conflict s c then some s else later

abbrev pub with_changed : Text → Option Text → Option (Text × Text) → Option (Text × Text)
with_changed c none later = later
with_changed c (some s) later = some (c, s)

-- The loops over the changed paths and the set.
unfoldable pub read_among : List Text → List Text → Option (Text × Text)
read_among paths [] = none
read_among paths (c ∷ changed) = with_changed c (first_read paths c) (read_among paths changed)

-- The loop over the changed paths that the method may not see.
unfoldable pub unseen : MethodInfo → List Text → List Text → Option Text
unseen info added [] = none
unseen info added (c ∷ changed) =
    let later = unseen info added changed in
    if is_in added c then later else if observes_ext (some info) c then later else some c

module _ (rs : ReadSet) (info : MethodInfo) where
  unfoldable pub match_seen : List Text → Option Text → ScopeDecision
  match_seen changed (some c) =
      refusal
        (text "changed path "
          ++ c
          ++ text " is not a kind of file this capture method reports ("
          ++ rs.method
          ++ text " sees "
          ++ info.guarantee
          ++ text "), so its absence from the read set proves nothing")
        changed rs.paths
  match_seen changed none = record {
    promoted = true;
    reason =
        text "all "
        ++ itoa (length changed)
        ++ text " changed paths are absent from the "
        ++ itoa (length rs.paths)
        ++ text "-path read set observed for this command by "
        ++ rs.method
        ++ text
            ", the diff adds nothing it would newly read, and every changed path is of a kind that method reports";
    changed_paths = changed;
    scope_paths = rs.paths;
  }

  unfoldable pub match_read : List Text → List Text → Option (Text × Text) → ScopeDecision
  match_read changed added (some (c, s)) =
      refusal (text "changed path " ++ c ++ text " is in the observed read set (" ++ s ++ text ")")
        changed rs.paths
  match_read changed added none = match_seen changed (unseen info added changed)

  unfoldable pub match_global : List Text → List Text → Option Text → ScopeDecision
  match_global changed added (some p) =
      refusal
        (text "changed path "
          ++ p
          ++ text " configures the toolchain and cannot be proven irrelevant to anything")
        changed rs.paths
  match_global changed added none = match_read changed added (read_among rs.paths changed)

  unfoldable pub match_safe : List Text → List Text → Option (Text × Text) → ScopeDecision
  match_safe changed added (some (p, why)) =
      refusal (text "the diff adds " ++ p ++ text ", " ++ why) changed rs.paths
  match_safe changed added none = match_global changed added (first_globally_relevant changed)

  module _ (recorded_tree current_tree : Text) where
    unfoldable pub match_added : List Text → Scoped (List Text) → ScopeDecision
    match_added changed (refused err) =
        refusal
          (text "cannot list additions between "
            ++ recorded_tree
            ++ text " and "
            ++ current_tree
            ++ text ": "
            ++ err)
          [] []
    match_added changed (found added) = match_safe changed added (first_unsafe_addition rs added)

    unfoldable pub match_diff : Repo → Scoped (List Text) → ScopeDecision
    match_diff repo (refused err) =
        refusal
          (text "cannot diff "
            ++ recorded_tree
            ++ text " against "
            ++ current_tree
            ++ text ": "
            ++ err)
          [] []
    match_diff repo (found []) =
        refusal (text "trees differ but diff-tree named no paths; refusing to guess why") [] []
    match_diff repo (found (c ∷ changed)) =
        match_added (c ∷ changed) (read_set_added_paths repo recorded_tree current_tree)

    -- The checks behind the method's.
    unfoldable pub match_known : Repo → ScopeDecision
    match_known repo =
        if not (text_eq rs.policy (to_string serve))
        then refusal
            (text "the recorded command's policy was "
              ++ read_set_policy_name rs.policy
              ++ text
                  " rather than SERVE, and observing what a command read does not make it servable")
            [] []
        else if length_zero rs.paths
        then refusal
            (text "the read set is empty: a run that read nothing inside the repo is "
              ++ text "far more likely to be a capture that failed than a command with no inputs")
            [] []
        else if text_eq recorded_tree current_tree
        then refusal
            (text "identical trees: tier 0 already decides this, tier 2 has nothing to prove") [] []
        else if not (is_tree_name recorded_tree) || not (is_tree_name current_tree)
        then refusal (text "malformed tree hash: refusing to hand it to git") [] []
        else match_diff repo (scope_changed_paths repo recorded_tree current_tree)

module _ (repo : Repo) (recorded_tree current_tree : Text) where
  unfoldable pub match_method : ReadSet → Option MethodInfo → ScopeDecision
  match_method rs none =
      refusal
        (text "read set captured by unknown method "
          ++ quote rs.method
          ++ text ": its completeness guarantee is unstated, so it cannot gate a promotion")
        [] []
  match_method rs (some info) = match_known rs info recorded_tree current_tree repo

  unfoldable pub match_set : Option ReadSet → ScopeDecision
  match_set none =
      refusal
        (text "no read set was captured for the recorded run, and an unobserved "
          ++ text "dependency set is exactly what tier 1 must never guess at")
        [] []
  match_set (some rs) = match_method rs (method_info rs.method)

  -- ScopeMatchObserved
  unfoldable pub scope_match_observed : Option ReadSet → ScopeDecision
  scope_match_observed rs =
      if is_blank repo.root
      then refusal (text "no repo root: a read set cannot be compared with a diff without one") []
          []
      else match_set rs
