-- ===== src/Policy/Heads.antt =====
-- internal/hp/policy.go: Policy, classifyGit, classifySed and classifyHead.
use fasthack.Prelude.{
  ℕ, zero, suc, String, Bool, true, false, ◌&&◌, ◌||◌, not, Option, none, some, List, [], ◌∷◌, ◌++◌,
  if◌then◌else◌,
}
use fasthack.Text.{Text, text, text_eq, is_empty, in_set, has_rune, has_prefix, before}
use fasthack.Policy.Tables.{
  mutation_heads, read_heads, metadata_heads, build_heads, install_heads, git_read_subs,
  git_mutation_subs, git_non_hermetic_subs, go_subs, cargo_subs, npm_subs,
}
use fasthack.Policy.Syntax.{Token}
use fasthack.Policy.Words.{rest, is_flag, first_subcommand, inner_head, seg_has_flag, long_listing}

pub data Policy : Type 0 where
  passthrough record_only serve : Policy

-- The order of the constants: the strictest policy is the least.
abbrev pub rank : Policy → ℕ
rank passthrough = 0
rank record_only = 1
rank serve = 2

-- Policy.String
unfoldable pub to_string : Policy → Text
to_string passthrough = text "PASSTHROUGH"
to_string record_only = text "RECORD_ONLY"
to_string serve = text "SERVE"

-- A policy with its reason.
abbrev pub Verdict : Type 0
Verdict = Policy × Text

-- The loop of `classifyGit` that looks for the subcommand; `skip` is the i++ behind -C and -c.
unfoldable pub git_sub : Bool → List Token → Text
git_sub skip [] = []
git_sub true (t ∷ toks) = git_sub false toks
git_sub false (t ∷ toks) =
    let onward = git_sub (text_eq t.text (text "-C") || text_eq t.text (text "-c")) toks in
    if is_flag t.text then onward else t.text

unfoldable pub classify_git_sub : Text → Verdict
classify_git_sub sub =
    if is_empty sub
    then (passthrough, text "unrecognized: git with no subcommand")
    else if in_set git_non_hermetic_subs sub
    then (passthrough, text "non-hermetic: git " ++ sub)
    else if in_set git_mutation_subs sub
    then (record_only, text "mutation: git " ++ sub)
    else if in_set git_read_subs sub
    then (serve, text "read: git " ++ sub)
    else (passthrough, text "unrecognized git subcommand: " ++ sub)

-- classifyGit
unfoldable pub classify_git : List Token → Verdict
classify_git toks = classify_git_sub (git_sub false (rest toks))

-- What one argument of sed says.
pub data SedFlag : Type 0 where
  in_place quiet other : SedFlag

unfoldable pub sed_short : Text → SedFlag
sed_short body =
    if has_rune b'i' body then in_place else if has_rune b'n' body then quiet else other

unfoldable pub sed_body : Text → SedFlag
sed_body body =
    if text_eq body (text "-in-place") || has_prefix (text "-in-place=") body
    then in_place
    else if has_prefix (text "-") body
    then (if text_eq body (text "-quiet") || text_eq body (text "-silent") then quiet else other)
    else sed_short (before b'.' body)

unfoldable pub sed_flag : Token → SedFlag
sed_flag t =
    if t.quoted || not (is_flag t.text)
    then other
    else elim t.text [ [] ↦ other | c ∷ body ↦ sed_body body ]

-- The loop of `classifySed`.
unfoldable pub sed_loop : Bool → List Token → Verdict
sed_loop saw_n [] =
    if saw_n then (serve, text "read: sed -n") else (record_only, text "mutation: sed without -n")
sed_loop saw_n (t ∷ toks) = elim (sed_flag t) [
  | in_place ↦ (record_only, text "mutation: sed -i")
  | quiet ↦ sed_loop true toks
  | other ↦ sed_loop saw_n toks
]

-- classifySed
unfoldable pub classify_sed : List Token → Verdict
classify_sed toks = sed_loop false (rest toks)

unfoldable pub classify_black : List Token → Verdict
classify_black toks =
    if seg_has_flag toks (text "--check")
    then (serve, text "build: black --check")
    else (record_only, text "mutation: black rewrites files without --check")

-- A head of `subcommandHeads`, with its table.
unfoldable pub classify_sub : Text → List String → Text → Verdict
classify_sub head subs sub =
    if is_empty sub
    then (passthrough, text "unrecognized: " ++ head ++ text " with no subcommand")
    else if in_set subs sub
    then (serve, text "build: " ++ head ++ text " " ++ sub)
    else (passthrough, text "unrecognized subcommand: " ++ head ++ text " " ++ sub)

-- The heads before the install heads; `none` goes on.
unfoldable pub classify_early : Text → List Token → Option Verdict
classify_early head toks =
    if text_eq head (text "git")
    then some (classify_git toks)
    else if text_eq head (text "sed")
    then some (classify_sed toks)
    else if text_eq head (text "black")
    then some (classify_black toks)
    else if text_eq head (text "go")
    then some (classify_sub head go_subs (first_subcommand toks))
    else if text_eq head (text "cargo")
    then some (classify_sub head cargo_subs (first_subcommand toks))
    else if text_eq head (text "npm")
    then some (classify_sub head npm_subs (first_subcommand toks))
    else if in_set mutation_heads head
    then some (record_only, text "mutation: " ++ head)
    else if in_set metadata_heads head
    then some (passthrough, text "prints file metadata the tree hash does not cover: " ++ head)
    else if text_eq head (text "ls") && long_listing (rest toks)
    then some (passthrough, text "ls long format prints mtimes the tree hash does not cover")
    else none

-- The heads behind the install heads.
unfoldable pub classify_late : Text → Verdict
classify_late head =
    if in_set read_heads head
    then (serve, text "read: " ++ head)
    else if in_set build_heads head
    then (serve, text "build: " ++ head)
    else (passthrough, text "unrecognized head: " ++ head)

-- sub == "run" || sub == "tool"
unfoldable pub runs_inner : Text → Bool
runs_inner sub = text_eq sub (text "run") || text_eq sub (text "tool")

-- The command that an install head goes on to classify, empty if there is none.
unfoldable pub delegate : List Token → Text
delegate toks =
    let sub = first_subcommand toks in if runs_inner sub then inner_head sub toks else []

unfoldable pub install_verdict : Verdict
install_verdict = (record_only, text "install: never servable without the artifact guard")

-- p, head + " " + sub + " -> " + reason
unfoldable pub through : Text → List Token → Verdict → Verdict
through head toks (p, reason) =
    (p, head ++ text " " ++ first_subcommand toks ++ text " -> " ++ reason)

-- classifyHead. It calls itself on the same tokens with the inner head, and nothing bounds the
-- calls: `none` is a recursion that is not done after `fuel` calls.
unfoldable pub classify_head : ℕ → Text → List Token → Option Verdict
classify_head zero head toks = none
classify_head (suc fuel) head toks = elim (classify_early head toks) [
  | some v ↦ some v
  | none ↦
      if in_set install_heads head
      then (let inner = delegate toks in
          let deeper = classify_head fuel inner toks in
          if is_empty inner
          then some install_verdict
          else elim deeper [ none ↦ none | some v ↦ some (through head toks v) ])
      else some (classify_late head)
]
