-- ===== src/Corpus/Classes.antt =====
-- internal/hp/corpus.go: the class of a command, by what running it costs.
use fasthack.Prelude.{
  ℕ, suc, ◌&&◌, ◌||◌, Option, none, some, List, [], ◌∷◌, ◌++◌, String, ltb, ◌==◌, if◌then◌else◌,
}
use fasthack.Text.{Text, text, text_eq, is_empty, has_prefix, is_blank, trim_last}
use fasthack.Text.Cut.{cut_prefix, has_suffix, after_first, after_last}
use fasthack.Policy.Heads.{Verdict}
use fasthack.Policy.Classify.{classify}

-- classOrder
unfoldable pub class_order : List String
class_order =
    "build" ∷ "install" ∷ "mutation" ∷ "non-hermetic" ∷ "metadata" ∷ "read" ∷ "unrecognized"
    ∷ "other" ∷ []

unfoldable pub rank_in : List String → Text → ℕ
rank_in [] c = 0
rank_in (name ∷ names) c =
    let later = suc (rank_in names c) in if text_eq (text name) c then 0 else later

-- classRank
unfoldable pub class_rank : Text → ℕ
class_rank c = rank_in class_order c

-- rest[i+2 : len(rest)-1] of a chain's reason
unfoldable pub inner_reason : Text → Text → Option Text → Text
inner_reason r rest none = r
inner_reason r rest (some inner) = if has_suffix (text ")") rest then trim_last b')' inner else r

unfoldable pub chain_reason : Text → Option Text → Text
chain_reason r none = r
chain_reason r (some rest) = inner_reason r rest (after_first (text " (") rest)

unfoldable pub or_whole : Text → Option Text → Text
or_whole r none = r
or_whole r (some inner) = inner

-- The `switch` of `classOfReason`.
unfoldable pub class_of_plain : Text → Text
class_of_plain r =
    if has_prefix (text "read:") r
    then text "read"
    else if has_prefix (text "build:") r
    then text "build"
    else if has_prefix (text "install:") r
    then text "install"
    else if has_prefix (text "mutation:") r
    then text "mutation"
    else if has_prefix (text "non-hermetic:") r
    then text "non-hermetic"
    else if has_prefix (text "prints file metadata") r || has_prefix (text "ls long format") r
    then text "metadata"
    else if has_prefix (text "unrecognized") r
        || has_prefix (text "unparseable") r
        || has_prefix (text "empty command") r
        || has_prefix (text "no command after") r
    then text "unrecognized"
    else text "other"

-- classOfReason
unfoldable pub class_of_reason : Text → Text
class_of_reason reason =
    let r = chain_reason reason (cut_prefix (text "chain: strictest segment is ") reason) in
    class_of_plain (or_whole r (after_last (text "-> ") r))

-- The open segment, reversed pieces put behind it: what `b` and `quote` hold.
unfoldable pub cut_chain : Text → Option ℕ → Text → List Text
cut_chain [] quote b = b ∷ []
cut_chain (c ∷ []) (some q) b = (b ++ c ∷ []) ∷ []
cut_chain (c ∷ []) none b =
    if c == b'|' || c == b';' || c == 10 then b ∷ [] ∷ [] else (b ++ c ∷ []) ∷ []
cut_chain (c ∷ d ∷ s) (some q) b = cut_chain (d ∷ s) (if c == q then none else some q) (b ++ c ∷ [])
cut_chain (c ∷ d ∷ s) none b =
    let two = b ∷ cut_chain s none [] in
    let one = b ∷ cut_chain (d ∷ s) none [] in
    let more = cut_chain (d ∷ s) (if c == b'\'' || c == b'"' then some c else none) (b ++ c ∷ []) in
    if c == b'\'' || c == b'"'
    then more
    else if (c == b'&' && d == b'&') || (c == b'|' && d == b'|')
    then two
    else if c == b'|' || c == b';' || c == 10
    then one
    else more

-- chainSegments
unfoldable pub chain_segments : Text → List Text
chain_segments cmd = cut_chain cmd none []

unfoldable pub better : Text → Text → Text
better best c = if is_empty best || ltb (class_rank c) (class_rank best) then c else best

unfoldable pub with_verdict : Text → Option Verdict → Option Text
with_verdict best none = none
with_verdict best (some (policy, reason)) = some (better best (class_of_reason reason))

-- The loop of `CommandClass`; `none` is a call of `Classify` that does not return.
unfoldable pub best_class : ℕ → List Text → Option Text → Option Text
best_class fuel segs none = none
best_class fuel [] (some best) = some best
best_class fuel (seg ∷ segs) (some best) =
    best_class fuel segs (if is_blank seg then some best else with_verdict best (classify fuel seg))

unfoldable pub or_other : Option Text → Option Text
or_other none = none
or_other (some best) = some (if is_empty best then text "other" else best)

-- CommandClass
unfoldable pub command_class : ℕ → Text → Option Text
command_class fuel cmd = or_other (best_class fuel (chain_segments cmd) (some []))
