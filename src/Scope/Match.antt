-- ===== src/Scope/Match.antt =====
-- internal/hp/scope.go: `ScopeMatchAt` and the commands that it is about.
use fasthack.Prelude.{
  Bool, true, false, not, ◌&&◌, ◌||◌, Option, none, some, List, [], ◌∷◌, ◌++◌, length,
  if◌then◌else◌,
}
use fasthack.Text.{Text, text, text_eq, in_set, is_blank}
use fasthack.Text.Order.{itoa}
use fasthack.Policy.Syntax.{Token, Segment, tokenize_segment, split_segments}
use fasthack.Policy.Words.{cmd_base, strip_env}
use fasthack.Policy.Classify.{is_pipe}
use fasthack.Scope.{Repo, ScopeDecision, Scoped, found, refused}
use fasthack.Scope.Tables.{self_contained_readers, scope_stdin_filters}
use fasthack.Scope.Paths.{
  scope_paths_conflict, scope_clean_cwd, is_tree_name, scope_changed_paths, first_globally_relevant,
}
use fasthack.Scope.Args.{command_scope_paths}

-- The head of a segment that reads more than its arguments.
unfoldable pub words_head : Segment → List Token → Option Text
words_head seg [] = none
words_head seg (t ∷ toks) =
    let head = cmd_base t.text in
    if text_eq head (text "cd")
    then none
    else if is_pipe seg.sep && in_set scope_stdin_filters head
    then none
    else if in_set self_contained_readers head
    then none
    else some head

unfoldable pub lexed_head : Segment → Option (List Token × Bool) → Option Text
lexed_head seg none = some (text "unparseable command")
lexed_head seg (some (toks, redirect)) = words_head seg (strip_env toks)

abbrev pub or_later : Option Text → Option Text → Option Text
or_later none later = later
or_later (some head) later = some head

unfoldable pub segments_head : List Segment → Option Text
segments_head [] = none
segments_head (seg ∷ segs) =
    let later = segments_head segs in
    if is_blank seg.text then later else or_later (lexed_head seg (tokenize_segment seg.text)) later

-- scopeSelfContainedHead: `none` is ("", true)
unfoldable pub scope_self_contained_head : Text → Option Text
scope_self_contained_head cmd = segments_head (split_segments cmd)

-- The first changed path in conflict with the scope path.
unfoldable pub first_conflict : Text → List Text → Option Text
first_conflict s [] = none
first_conflict s (c ∷ changed) =
    let later = first_conflict s changed in if scope_paths_conflict s c then some c else later

abbrev pub with_scope_path : Text → Option Text → Option (Text × Text) → Option (Text × Text)
with_scope_path s none later = later
with_scope_path s (some c) later = some (s, c)

-- The two loops of `ScopeMatchAt`.
unfoldable pub conflict_in : List Text → List Text → Option (Text × Text)
conflict_in [] changed = none
conflict_in (s ∷ scope) changed =
    with_scope_path s (first_conflict s changed) (conflict_in scope changed)

-- strings.Join(scope, " ")
unfoldable pub join_spaces : List Text → Text
join_spaces [] = []
join_spaces (p ∷ []) = p
join_spaces (p ∷ q ∷ ps) = p ++ b' ' ∷ join_spaces (q ∷ ps)

unfoldable pub refusal : Text → List Text → List Text → ScopeDecision
refusal why changed scope = record {
  promoted = false;
  reason = why;
  changed_paths = changed;
  scope_paths = scope;
}

-- What the scope and the changed paths make of it.
unfoldable pub disjoint : List Text → List Text → Option (Text × Text) → ScopeDecision
disjoint changed scope (some (s, c)) =
    refusal (text "changed path " ++ c ++ text " is not disjoint from scope " ++ s) changed scope
disjoint changed scope none = record {
  promoted = true;
  reason =
      text "all "
      ++ itoa (length changed)
      ++ text " changed paths are disjoint from the literal path arguments ["
      ++ join_spaces scope
      ++ text "]";
  changed_paths = changed;
  scope_paths = scope;
}

unfoldable pub scoped : List Text → Scoped (List Text) → ScopeDecision
scoped changed (refused why) = refusal why changed []
scoped changed (found scope) = disjoint changed scope (conflict_in scope changed)

unfoldable pub unless_global : List Text → Option Text → ScopeDecision → ScopeDecision
unless_global changed none dec = dec
unless_global changed (some p) dec =
    refusal
      (text "changed path "
        ++ p
        ++ text " configures the toolchain and cannot be proven irrelevant to anything")
      changed []

module _ (repo : Repo) (recorded_tree current_tree cmd : Text) where
  -- Behind the diff.
  unfoldable pub match_changed : Text → Scoped (List Text) → ScopeDecision
  match_changed cwd (refused err) =
      refusal
        (text "cannot diff "
          ++ recorded_tree
          ++ text " against "
          ++ current_tree
          ++ text ": "
          ++ err)
        [] []
  match_changed cwd (found []) =
      refusal (text "trees differ but diff-tree named no paths; refusing to guess why") [] []
  match_changed cwd (found (c ∷ changed)) =
      unless_global (c ∷ changed) (first_globally_relevant (c ∷ changed))
        (scoped (c ∷ changed) (command_scope_paths repo cwd (c ∷ changed) cmd))

  unfoldable pub match_trees : Text → ScopeDecision
  match_trees cwd =
      if not (is_tree_name recorded_tree) || not (is_tree_name current_tree)
      then refusal (text "malformed tree hash: refusing to hand it to git") [] []
      else match_changed cwd (scope_changed_paths repo recorded_tree current_tree)

  unfoldable pub match_head : Text → Option Text → ScopeDecision
  match_head cwd (some head) =
      refusal
        (text "reads more than its arguments: "
          ++ head
          ++ text " follows a dependency graph the command line does not name")
        [] []
  match_head cwd none = match_trees cwd

  unfoldable pub match_cwd : Text → Option Text → ScopeDecision
  match_cwd cwd_rel none =
      refusal (text "working directory " ++ cwd_rel ++ text " is not inside the repo root") [] []
  match_cwd cwd_rel (some cwd) =
      if text_eq recorded_tree current_tree
      then refusal
          (text "identical trees: tier 0 already decides this, tier 1 has nothing to prove") [] []
      else match_head cwd (scope_self_contained_head cmd)

  -- ScopeMatchAt, its first three parameters after the section's
  unfoldable pub scope_match_at : Text → ScopeDecision
  scope_match_at cwd_rel =
      if is_blank repo.root
      then refusal (text "no repo root: path arguments cannot be resolved") [] []
      else match_cwd cwd_rel (scope_clean_cwd cwd_rel)

  -- ScopeMatch
  unfoldable pub scope_match : ScopeDecision
  scope_match = scope_match_at (b'.' ∷ [])
