-- ===== src/Scope/SelfContained.antt =====
-- internal/hp/scope.go: the heads of a command that scopeSelfContainedHead lets through.
use fasthack.Prelude.{
  ◌≡◌, ◌⊎◌, refl, inl, inr, Bool, true, ◌&&◌, Option, none, some, List, [], ◌∷◌, Bool-cases, All,
}
use fasthack.Text.{Text, text, text_eq, in_set, is_blank}
use fasthack.Policy.Syntax.{Token, Segment, tokenize_segment, split_segments}
use fasthack.Policy.Words.{cmd_base, strip_env}
use fasthack.Policy.Classify.{is_pipe}
use fasthack.Scope.Tables.{self_contained_readers, scope_stdin_filters}
use fasthack.Scope.Match.{
  words_head, lexed_head, or_later, segments_head, scope_self_contained_head,
}

-- There is no head, or it is `cd`, a filter behind a pipe, or listed as reading its arguments only.
abbrev HasListedHead : Segment → List Token → Type 0
HasListedHead seg [] = Unit
HasListedHead seg (t ∷ toks) =
    (text_eq (cmd_base t.text) (text "cd") ≡ true)
    ⊎ ((is_pipe seg.sep && in_set scope_stdin_filters (cmd_base t.text)) ≡ true)
    ⊎ (in_set self_contained_readers (cmd_base t.text) ≡ true)

-- The segment closes its quotes, and has such a head behind its assignments.
abbrev pub IsListed : Segment → Option (List Token × Bool) → Type 0
IsListed seg none = ⊥
IsListed seg (some (toks, redirect)) = HasListedHead seg (strip_env toks)

abbrev pub EachIsListed : List Segment → Type 0
EachIsListed segs =
    All (λ seg. (is_blank seg.text ≡ true) ⊎ IsListed seg (tokenize_segment seg.text)) segs

words-HasListedHead :
    (seg : Segment) (toks : List Token) → words_head seg toks ≡ none → HasListedHead seg toks
unfolding words_head
words-HasListedHead seg [] h = tt
words-HasListedHead seg (t ∷ toks) h = elim (Bool-cases (text_eq (cmd_base t.text) (text "cd"))) [
  | inl e ↦ inl e
  | inr e ↦ elim (Bool-cases (is_pipe seg.sep && in_set scope_stdin_filters (cmd_base t.text))) [
    | inl f ↦ inr (inl f)
    | inr f ↦ elim (Bool-cases (in_set self_contained_readers (cmd_base t.text))) [
      | inl g ↦ inr (inr g)
      | inr g ↦ absurd (cc (rw (e, f, g) at h))
    ]
  ]
]

lexed-IsListed :
    (seg : Segment) (lexed : Option (List Token × Bool))
    → lexed_head seg lexed ≡ none
    → IsListed seg lexed
unfolding lexed_head
lexed-IsListed seg none h = cc h
lexed-IsListed seg (some (toks, redirect)) h = words-HasListedHead seg (strip_env toks) h

or_later-none : (o later : Option Text) → or_later o later ≡ none → (o ≡ none) × (later ≡ none)
or_later-none none later h = (refl, h)
or_later-none (some head) later h = absurd (cc h)

segments-EachIsListed : (segs : List Segment) → segments_head segs ≡ none → EachIsListed segs
unfolding segments_head
segments-EachIsListed [] h = tt
segments-EachIsListed (seg ∷ segs) h = elim (Bool-cases (is_blank seg.text)) [
  | inl b ↦ (inl b, segments-EachIsListed segs (rw b at h))
  | inr b ↦
      let (first, later) = or_later-none _ _ (rw b at h) in
      (inr (lexed-IsListed seg (tokenize_segment seg.text) first), segments-EachIsListed segs later)
]

pub scope_self_contained_head-EachIsListed :
    (cmd : Text) → scope_self_contained_head cmd ≡ none → EachIsListed (split_segments cmd)
unfolding scope_self_contained_head
scope_self_contained_head-EachIsListed cmd h = segments-EachIsListed (split_segments cmd) h
