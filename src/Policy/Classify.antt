-- ===== src/Policy/Classify.antt =====
-- internal/hp/policy.go: classifySegment and Classify.
use fasthack.Prelude.{
  ℕ, ◌+◌, Bool, true, false, ◌&&◌, ◌||◌, Option, none, some, List, [], ◌∷◌, ◌++◌, ltb, ◌==◌,
  if◌then◌else◌,
}
use fasthack.Text.{Text, text, is_empty, is_blank, in_set}
use fasthack.Policy.Tables.{pipe_shells}
use fasthack.Policy.Syntax.{
  Token, Segment, Sep, pipe, tokenize_segment, split_segments, has_command_substitution,
}
use fasthack.Policy.Words.{strip_env, cmd_base, non_hermetic_word, is_directory_change}
use fasthack.Policy.Heads.{
  Policy, passthrough, record_only, serve, rank, to_string, Verdict, classify_head,
}

-- seg.sep == "|"
abbrev pub is_pipe : Sep → Bool
is_pipe pipe = true
is_pipe _ = false

-- if redirect && p == SERVE
abbrev pub demote : Bool → Verdict → Verdict
demote true (serve, reason) = (record_only, text "mutation: output redirection")
demote redirect v = v

unfoldable pub classify_words : ℕ → Sep → Bool → Text → List Token → Option Verdict
classify_words fuel sep redirect head toks =
    let word = non_hermetic_word toks in
    let found = classify_head fuel head toks in
    if is_empty head
    then some (passthrough, text "unparseable: no head command")
    else if is_pipe sep && in_set pipe_shells head
    then some (passthrough, text "non-hermetic: pipe to shell")
    else if is_empty word
    then elim found [ none ↦ none | some v ↦ some (demote redirect v) ]
    else some (passthrough, text "non-hermetic: " ++ word)

unfoldable pub classify_toks : ℕ → Sep → Bool → List Token → Option Verdict
classify_toks fuel sep redirect [] =
    some (passthrough, text "no command after inline env assignments")
classify_toks fuel sep redirect (t ∷ toks) =
    classify_words fuel sep redirect (cmd_base t.text) (t ∷ toks)

unfoldable pub classify_lexed : ℕ → Sep → Option (List Token × Bool) → Option Verdict
classify_lexed fuel sep none = some (passthrough, text "unparseable: unterminated quote")
classify_lexed fuel sep (some (toks, redirect)) = classify_toks fuel sep redirect (strip_env toks)

-- classifySegment
unfoldable pub classify_segment : ℕ → Segment → Option Verdict
classify_segment fuel seg = classify_lexed fuel seg.sep (tokenize_segment seg.text)

-- The variables of the loop of `Classify`.
pub record Tally : Type 0 where
  pub worst : Policy
  pub reason : Text
  pub segments : ℕ
  pub nav_only : ℕ

-- if reason == "" || p < worst { worst, reason = p, r }
unfoldable pub count : Tally → Verdict → Tally
count t (p, r) =
    if is_empty t.reason || ltb (rank p) (rank t.worst)
    then record { worst = p; reason = r; segments = t.segments + 1; nav_only = t.nav_only }
    else record t { segments = t.segments + 1 }

unfoldable pub classify_loop : ℕ → Tally → List Segment → Option Tally
classify_loop fuel t [] = some t
classify_loop fuel t (seg ∷ segs) =
    let skipped = classify_loop fuel t segs in
    let moved = classify_loop fuel (record t { nav_only = t.nav_only + 1 }) segs in
    if is_blank seg.text
    then skipped
    else if is_directory_change seg
    then moved
    else elim (classify_segment fuel seg) [
      | none ↦ none
      | some v ↦ classify_loop fuel (count t v) segs
    ]

-- What `Classify` returns behind its loop.
unfoldable pub conclude : Tally → Verdict
conclude t =
    if t.segments == 0
    then (if t.nav_only == 0
        then (passthrough, text "empty command")
        else (passthrough, text "directory change only: the effect is the move, not the output"))
    else if ltb 1 t.segments
    then (
      t.worst,
      text "chain: strictest segment is " ++ to_string t.worst ++ text " (" ++ t.reason ++ text ")",
    )
    else (t.worst, t.reason)

abbrev pub tally_start : Tally
tally_start = record { worst = serve; reason = []; segments = 0; nav_only = 0 }

-- Classify. `none` is a call that does not return: a segment whose classifyHead goes on and on.
unfoldable pub classify : ℕ → Text → Option Verdict
classify fuel cmd =
    if is_blank cmd
    then some (passthrough, text "empty command")
    else if has_command_substitution cmd
    then some (passthrough, text "non-hermetic: command substitution")
    else elim (classify_loop fuel tally_start (split_segments cmd)) [
      | none ↦ none
      | some t ↦ some (conclude t)
    ]
