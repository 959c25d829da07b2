-- ===== src/Scope/Paths.antt =====
-- internal/hp/scope.go: the functions on paths.
use fasthack.Prelude.{
  ℕ, Bool, true, false, not, ◌&&◌, ◌||◌, Option, none, some, List, [], ◌∷◌, ◌++◌, String, ◌==◌, leb,
  if◌then◌else◌, length,
}
use fasthack.Text.{
  Text, text, text_eq, is_empty, in_set, has_prefix, contains, to_lower, trim_space, is_blank,
}
use fasthack.Text.PathName.{slash, dot, dot_dot, clean, join, base, ext, is_abs}
use fasthack.Text.Order.{sorted}
use fasthack.Scope.{Repo, GitOutput, printed, failed, Scoped, found, refused}
use fasthack.Scope.Tables.{scope_path_exts, scope_global_files, scope_global_prefixes}

-- Two clean paths conflict when one contains the other, part by part.
unfoldable pub conflict_clean : Text → Text → Bool
conflict_clean s c =
    text_eq s dot
    || text_eq c dot
    || text_eq s c
    || has_prefix (s ++ slash) c
    || has_prefix (c ++ slash) s

-- scopePathsConflict
unfoldable pub scope_paths_conflict : Text → Text → Bool
scope_paths_conflict scope changed = conflict_clean (clean scope) (clean changed)

-- scopeTouchesChanged
unfoldable pub scope_touches_changed : Text → List Text → Bool
scope_touches_changed rel [] = false
scope_touches_changed rel (c ∷ changed) =
    scope_paths_conflict rel c || scope_touches_changed rel changed

unfoldable pub collides : Text → List Text → Option Text
collides c [] = none
collides c (ch ∷ changed) =
    let later = collides c changed in if text_eq ch c || text_eq (base ch) c then some ch else later

-- collidesWithChanged, `none` for the empty text: no changed path is empty
unfoldable pub collides_with_changed : Text → List Text → Option Text
collides_with_changed cand changed = collides (clean cand) changed

-- existsUnder
unfoldable pub exists_under : Repo → Text → Bool
exists_under repo rel = is_empty rel || text_eq rel dot || repo.exists rel

-- `rel == ".."` or below it
unfoldable pub escapes : Text → Bool
escapes p = text_eq p dot_dot || has_prefix (dot_dot ++ slash) p

unfoldable pub cwd_inside : Text → Option Text
cwd_inside c = if text_eq c dot then some [] else if escapes c then none else some c

-- scopeCleanCwd
unfoldable pub scope_clean_cwd : Text → Option Text
scope_clean_cwd cwd_rel =
    let c = trim_space cwd_rel in
    if is_empty c then some [] else if is_abs c then none else cwd_inside (clean c)

unfoldable pub is_hex : ℕ → Bool
is_hex c = leb b'0' c && leb c b'9' || leb b'a' c && leb c b'f'

unfoldable pub all_hex : Text → Bool
all_hex [] = true
all_hex (c ∷ s) = is_hex c && all_hex s

-- isTreeName; where the runes are all ASCII, their number is that of the bytes
unfoldable pub is_tree_name : Text → Bool
is_tree_name s = (length s == 40 || length s == 64) && all_hex s

unfoldable pub any_prefix : List String → Text → Bool
any_prefix [] b = false
any_prefix (pre ∷ prefixes) b = has_prefix (text pre) b || any_prefix prefixes b

-- The body of the loop of `firstGloballyRelevant`.
unfoldable pub is_global : Text → Bool
is_global p = in_set scope_global_files (base p) || any_prefix scope_global_prefixes (base p)

-- firstGloballyRelevant, `none` for the empty text: no changed path is empty
unfoldable pub first_globally_relevant : List Text → Option Text
first_globally_relevant [] = none
first_globally_relevant (p ∷ changed) =
    let later = first_globally_relevant changed in if is_global p then some p else later

-- stripNodeID
unfoldable pub strip_node_id : Text → Text
strip_node_id [] = []
strip_node_id (c ∷ s) = if has_prefix (b':' ∷ b':' ∷ []) (c ∷ s) then [] else c ∷ strip_node_id s

unfoldable pub lower : Text → Text
lower [] = []
lower (c ∷ s) = to_lower c ∷ lower s

-- looksLikeRepoPath
unfoldable pub looks_like_repo_path : Repo → Text → Text → Bool
looks_like_repo_path repo cwd cand =
    not (is_empty cand)
    && (contains slash cand
        || in_set scope_path_exts (lower (ext cand))
        || exists_under repo (join cwd cand))

-- strings.Split(out, "\x00"), the first entry built up in `entry`
unfoldable pub split_nul : Text → Text → List Text
split_nul entry [] = entry ∷ []
split_nul entry (c ∷ s) =
    let cut = entry ∷ split_nul [] s in
    let grow = split_nul (entry ++ c ∷ []) s in if c == 0 then cut else grow

unfoldable pub clean_entries : List Text → List Text
clean_entries [] = []
clean_entries (p ∷ ps) =
    let later = clean_entries ps in if is_blank p then later else clean (trim_space p) ∷ later

abbrev pub paths_of : GitOutput → Scoped (List Text)
paths_of (printed out) = found (sorted (clean_entries (split_nul [] out)))
paths_of (failed err) = refused err

-- scopeChangedPaths; `refused` is the error
unfoldable pub scope_changed_paths : Repo → Text → Text → Scoped (List Text)
scope_changed_paths repo recorded_tree current_tree =
    paths_of (repo.diff_names recorded_tree current_tree)
