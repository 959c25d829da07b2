-- ===== src/Scope/Args.antt =====
-- internal/hp/scope.go: the paths that a command names. An argument is a path, provably none, or
-- refused.
use fasthack.Prelude.{
  Bool, true, false, not, ◌&&◌, ◌||◌, Option, none, some, List, [], ◌∷◌, ◌++◌, String,
  if◌then◌else◌,
}
use fasthack.Text.{
  Text, text, text_eq, is_empty, in_set, has_rune, contains_any, after, trim_last, trim_space,
  is_blank,
}
use fasthack.Text.PathName.{slash, dot, join, is_abs}
use fasthack.Text.Order.{sorted}
use fasthack.Policy.Syntax.{
  Token, Segment, tokenize_segment, split_segments, has_command_substitution,
}
use fasthack.Policy.Words.{is_flag, cmd_base, strip_env}
use fasthack.Policy.Classify.{is_pipe}
use fasthack.Scope.{Repo, Scoped, found, refused}
use fasthack.Scope.Tables.{scope_refuse_heads, scope_stdin_filters}
use fasthack.Scope.Paths.{
  scope_touches_changed, collides_with_changed, exists_under, escapes, strip_node_id,
  looks_like_repo_path,
}

-- A path to add to the scope, or nothing.
abbrev pub Arg : Type 0
Arg = Scoped (Option Text)

unfoldable pub argument : Text → String → Text
argument raw why = text "argument " ++ raw ++ text why

-- A token that does not look like a path.
unfoldable pub word_scope : Text → Option Text → Arg
word_scope raw none = found none
word_scope raw (some c) = refused (
    text "argument "
    ++ raw
    ++ text " may name changed path "
    ++ c
    ++ text ", and we cannot tell whether it is a path or a pattern")

-- cand := stripNodeID(raw), without a trailing slash
unfoldable pub cand_of : Text → Text
cand_of raw =
    let cand = strip_node_id raw in if text_eq cand slash then cand else trim_last b'/' cand

abbrev pub add_path : Arg → Scoped (List Text) → Scoped (List Text)
add_path (refused why) later = refused why
add_path (found o) (refused why) = refused why
add_path (found none) (found ps) = found ps
add_path (found (some p)) (found ps) = found (p ∷ ps)

-- The loop over every bare word.
unfoldable pub refused_word : List Token → Option Text
refused_word [] = none
refused_word (t ∷ toks) =
    let later = refused_word toks in
    if t.quoted || is_flag t.text
    then later
    else if in_set scope_refuse_heads (cmd_base t.text)
    then some (cmd_base t.text)
    else later

abbrev pub unless_refused : Option Text → Scoped (List Text) → Scoped (List Text)
unless_refused none paths = paths
unless_refused (some b) paths =
    refused (text "output depends on the whole tree regardless of arguments: " ++ b)

-- The head and the paths.
abbrev pub with_head : Text → Scoped (List Text) → Scoped (Text × List Text)
with_head head (found ps) = found (head, ps)
with_head head (refused why) = refused why

-- `seg.sep == "|" && scopeStdinFilters[head]`
unfoldable pub reads_pipe : Segment → Text → Bool
reads_pipe seg head = is_pipe seg.sep && in_set scope_stdin_filters head

abbrev has_none : List Text → Bool
has_none [] = true
has_none (p ∷ ps) = false

abbrev pub prepend : List Text → Scoped (List Text) → Scoped (List Text)
prepend paths (refused why) = refused why
prepend paths (found ps) = found (paths ++ ps)

-- A segment's answer, with that of the later segments.
unfoldable pub union : Segment → Scoped (Text × List Text) → Scoped (List Text) → Scoped (List Text)
union seg (refused why) later = refused why
union seg (found (head, paths)) later =
    if has_none paths && not (reads_pipe seg head)
    then refused (
        text "no literal path arguments in `"
        ++ trim_space seg.text
        ++ text "`: an unscoped command reads whatever it likes")
    else prepend paths later

unfoldable pub all_blank : List Segment → Bool
all_blank [] = true
all_blank (seg ∷ segs) = is_blank seg.text && all_blank segs

abbrev pub not_unscoped : Scoped (List Text) → Scoped (List Text)
not_unscoped (refused why) = refused why
not_unscoped (found []) =
    refused (text "no literal path arguments: an unscoped command reads whatever it likes")
not_unscoped (found (p ∷ ps)) = found (sorted (p ∷ ps))

-- `if !existsUnder(repoRoot, rel) && !scopeTouchesChanged(rel, changed)`
unfoldable pub rel_scope : Repo → List Text → Text → Text → Arg
rel_scope repo changed raw rel =
    if escapes rel
    then refused (argument raw " escapes the repo root")
    else if text_eq rel dot
    then refused (argument raw " scopes the whole tree")
    else if not (exists_under repo rel) && not (scope_touches_changed rel changed)
    then refused (
        argument raw
          " names nothing in either tree; the command was probably not run at the repo root")
    else found (some rel)

module _ (repo : Repo) (cwd : Text) where
  -- `if v := raw[i+1:]; v != "" && looksLikeRepoPath(...)`
  unfoldable pub carries_path : Option Text → Bool
  carries_path none = false
  carries_path (some v) = not (is_empty v) && looks_like_repo_path repo cwd (strip_node_id v)

  -- A flag.
  unfoldable pub flag_scope : Text → Arg
  flag_scope raw =
      if carries_path (after b'=' raw)
      then refused (text "flag " ++ raw ++ text " carries a path whose meaning depends on the tool")
      else found none

  -- From `if cand == "" || cand == "."` on.
  unfoldable pub cand_scope : List Text → Text → Text → Arg
  cand_scope changed raw cand =
      if is_empty cand || text_eq cand dot
      then (if text_eq raw dot || text_eq raw (dot ++ slash)
          then refused (argument raw " scopes the whole tree")
          else found none)
      else if has_rune b':' cand
      then refused (argument raw " is not a plain path")
      else if is_abs cand
      then refused (
          text "absolute path "
          ++ raw
          ++ text ": refusing rather than guessing whether it resolves inside the repo")
      else if not (looks_like_repo_path repo cwd cand)
      then word_scope raw (collides_with_changed cand changed)
      else rel_scope repo changed raw (join cwd cand)

  -- tokenScopePath
  unfoldable pub token_scope_path : List Text → Text → Arg
  token_scope_path changed raw =
      if is_empty raw
      then found none
      else if is_flag raw
      then flag_scope raw
      else if contains_any raw (text "$~`")
      then refused (argument raw " needs shell expansion, so the literal string is not the path")
      else if contains_any raw (text "*?[]{}")
      then refused
          (argument raw " is a glob, and a glob's match set depends on the tree that changed")
      else cand_scope changed raw (cand_of raw)

  -- The loop of `segmentScopePaths` over the arguments.
  unfoldable pub args_scope : List Text → List Token → Scoped (List Text)
  args_scope changed [] = found []
  args_scope changed (t ∷ toks) =
      add_path (token_scope_path changed t.text) (args_scope changed toks)

  -- The words behind the env assignments.
  unfoldable pub words_scope : List Text → List Token → Scoped (Text × List Text)
  words_scope changed [] = refused (text "no command after inline env assignments")
  words_scope changed (t ∷ toks) =
      let head = cmd_base t.text in
      if is_empty head
      then refused (text "unparseable: no head command")
      else with_head head (unless_refused (refused_word (t ∷ toks)) (args_scope changed toks))

  unfoldable pub lexed_scope : List Text → Option (List Token × Bool) → Scoped (Text × List Text)
  lexed_scope changed none = refused (text "unparseable: unterminated quote")
  lexed_scope changed (some (toks, redirect)) =
      if redirect
      then refused (text "output redirection: the target is a write we cannot bound")
      else words_scope changed (strip_env toks)

  -- segmentScopePaths
  unfoldable pub segment_scope_paths : List Text → Segment → Scoped (Text × List Text)
  segment_scope_paths changed seg = lexed_scope changed (tokenize_segment seg.text)

  -- The loop of `commandScopePaths`, without the set `seen`.
  unfoldable pub segments_scope : List Text → List Segment → Scoped (List Text)
  segments_scope changed [] = found []
  segments_scope changed (seg ∷ segs) =
      let later = segments_scope changed segs in
      if is_blank seg.text then later else union seg (segment_scope_paths changed seg) later

  -- commandScopePaths
  unfoldable pub command_scope_paths : List Text → Text → Scoped (List Text)
  command_scope_paths changed cmd =
      if is_blank cmd
      then refused (text "empty command")
      else if has_command_substitution cmd
      then refused (text "command substitution: the real arguments are not in the command string")
      else if all_blank (split_segments cmd)
      then refused (text "empty command")
      else not_unscoped (segments_scope changed (split_segments cmd))
