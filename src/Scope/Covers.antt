-- ===== src/Scope/Covers.antt =====
-- internal/hp/scope.go: the arguments of a segment against the scope that is made of them.
use fasthack.Prelude.{
  ◌≡◌, ◌⊎◌, refl, inl, inr, Bool, true, false, ◌||◌, Option, none, some, List, [], ◌∷◌, arith,
  Bool-cases, All, Any, subst,
}
use fasthack.Text.{Text, text, text_eq, is_empty, is_blank, contains_any}
use fasthack.Text.PathName.{dot, join}
use fasthack.Policy.Syntax.{Token, Segment, tokenize_segment}
use fasthack.Policy.Words.{is_flag, cmd_base, strip_env}
use fasthack.Scope.{Repo, Scoped, found, refused}
use fasthack.Scope.Paths.{collides_with_changed, looks_like_repo_path}
use fasthack.Scope.Args.{
  Arg, rel_scope, word_scope, cand_scope, cand_of, token_scope_path, add_path, args_scope,
  refused_word, unless_refused, with_head, words_scope, lexed_scope, segment_scope_paths,
}

-- The path is in the scope.
abbrev pub IsIn : List Text → Text → Type 0
IsIn scope p = Any (λ q. q ≡ p) scope

module _ (repo : Repo) (cwd : Text) (changed : List Text) where
  -- Left out as no path: nothing is left of it, or it neither looks like a path nor names a changed one.
  abbrev pub IsNoPath : Text → Type 0
  IsNoPath cand =
      ((is_empty cand || text_eq cand dot) ≡ true)
      ⊎ ((looks_like_repo_path repo cwd cand ≡ false) × (collides_with_changed cand changed ≡ none))

  -- An argument is empty, a flag, or literal and either no path or a path in the scope.
  abbrev pub IsAccounted : List Text → Text → Type 0
  IsAccounted scope raw =
      (is_empty raw ≡ true)
      ⊎ (is_flag raw ≡ true)
      ⊎ (((contains_any raw (text "$~`") || contains_any raw (text "*?[]{}")) ≡ false)
          × (IsNoPath (cand_of raw) ⊎ IsIn scope (join cwd (cand_of raw))))

  rel-found :
      (raw rel : Text) (o : Option Text) → rel_scope repo changed raw rel ≡ found o → o ≡ some rel
  unfolding rel_scope
  rel-found raw rel o h = ground arith

  word-found :
      (raw : Text) (c o : Option Text) → word_scope raw c ≡ found o → (c ≡ none) × (o ≡ none)
  unfolding word_scope
  word-found raw none o h = (refl, ground arith)
  word-found raw (some c) o h = cc h

  cand-found :
      (raw cand : Text) (o : Option Text)
      → cand_scope repo cwd changed raw cand ≡ found o
      → (IsNoPath cand × (o ≡ none)) ⊎ (o ≡ some (join cwd cand))
  unfolding cand_scope
  cand-found raw cand o h = elim (Bool-cases (is_empty cand || text_eq cand dot)) [
    | inl a ↦ inl (inl a, ground arith)
    | inr a ↦ elim (Bool-cases (looks_like_repo_path repo cwd cand)) [
      | inl l ↦ inr (rel-found raw (join cwd cand) o (ground arith))
      | inr l ↦
          let (c, n) = word-found raw (collides_with_changed cand changed) o (ground arith) in
          inl (inr (l, c), n)
    ]
  ]

  literal-IsAccounted :
      (raw : Text) (o : Option Text) (scope : List Text)
      → (IsNoPath (cand_of raw) × (o ≡ none)) ⊎ (o ≡ some (join cwd (cand_of raw)))
      → ((p : Text) → o ≡ some p → IsIn scope p)
      → IsNoPath (cand_of raw) ⊎ IsIn scope (join cwd (cand_of raw))
  literal-IsAccounted raw o scope (inl (n, e)) into = inl n
  literal-IsAccounted raw o scope (inr e) into = inr (into _ e)

  token-IsAccounted :
      (raw : Text) (o : Option Text) (scope : List Text)
      → token_scope_path repo cwd changed raw ≡ found o
      → ((p : Text) → o ≡ some p → IsIn scope p)
      → IsAccounted scope raw
  unfolding token_scope_path
  token-IsAccounted raw o scope h into = elim (Bool-cases (is_empty raw)) [
    | inl a ↦ inl a
    | inr a ↦ elim (Bool-cases (is_flag raw)) [
      | inl f ↦ inr (inl f)
      | inr f ↦ inr (
          inr (
            ground arith,
            literal-IsAccounted raw o scope (cand-found raw (cand_of raw) o (ground arith)) into,
          ))
    ]
  ]

  IsAccounted-more :
      (scope more : List Text) (raw : Text)
      → ((p : Text) → IsIn scope p → IsIn more p)
      → IsAccounted scope raw
      → IsAccounted more raw
  IsAccounted-more scope more raw up (inl a) = inl a
  IsAccounted-more scope more raw up (inr (inl f)) = inr (inl f)
  IsAccounted-more scope more raw up (inr (inr (l, inl n))) = inr (inr (l, inl n))
  IsAccounted-more scope more raw up (inr (inr (l, inr i))) = inr (inr (l, inr (up _ i)))

  All-more :
      (scope more : List Text) (toks : List Token)
      → ((p : Text) → IsIn scope p → IsIn more p)
      → All (λ t. IsAccounted scope t.text) toks
      → All (λ t. IsAccounted more t.text) toks
  All-more scope more [] up h = tt
  All-more scope more (t ∷ toks) up h =
      (IsAccounted-more scope more t.text up h.0, All-more scope more toks up h.1)

  add_path-found :
      (a : Arg) (later : Scoped (List Text)) (ps : List Text)
      → add_path a later ≡ found ps
      → (o : Option Text) × (qs : List Text) × (a ≡ found o)
        × (later ≡ found qs)
        × ((p : Text) → o ≡ some p → IsIn ps p)
        × ((p : Text) → IsIn qs p → IsIn ps p)
  add_path-found (refused why) later ps h = cc h
  add_path-found (found o) (refused why) ps h = cc h
  add_path-found (found none) (found qs) ps h =
      (none, qs, refl, refl, λ p e. cc e, λ p i. subst (λ rs. IsIn rs p) (ground arith) i)
  add_path-found (found (some q)) (found qs) ps h =
      let e : q ∷ qs ≡ ps = ground arith in
      (
        some q,
        qs,
        refl,
        refl,
        λ p e'. subst (λ rs. IsIn rs p) e (inl (ground arith)),
        λ p i. subst (λ rs. IsIn rs p) e (inr i),
      )

  args-IsAccounted :
      (toks : List Token) (ps : List Text)
      → args_scope repo cwd changed toks ≡ found ps
      → All (λ t. IsAccounted ps t.text) toks
  unfolding args_scope
  args-IsAccounted [] ps h = tt
  args-IsAccounted (t ∷ toks) ps h =
      let (o, qs, a, l, head, tail) = add_path-found _ _ ps h in
      (token-IsAccounted t.text o ps a head, All-more qs ps toks tail (args-IsAccounted toks qs l))

  -- The segment's quotes are closed and nothing is redirected into a file; it has a head; no bare
  -- word is a command that reads the whole tree; its arguments are accounted for.
  abbrev pub AreScoped : List Text → List Token → Type 0
  AreScoped scope [] = ⊥
  AreScoped scope (t ∷ toks) =
      (is_empty (cmd_base t.text) ≡ false)
      × (refused_word (t ∷ toks) ≡ none)
      × All (λ u. IsAccounted scope u.text) toks

  abbrev pub IsScoped : List Text → Option (List Token × Bool) → Type 0
  IsScoped scope none = ⊥
  IsScoped scope (some (toks, redirect)) = (redirect ≡ false) × AreScoped scope (strip_env toks)

  words-AreScoped :
      (toks : List Token) (head : Text) (ps : List Text)
      → words_scope repo cwd changed toks ≡ found (head, ps)
      → AreScoped ps toks
  unfolding words_scope
  words-AreScoped [] head ps h = cc h
  words-AreScoped (t ∷ toks) head ps h = elim (Bool-cases (is_empty (cmd_base t.text))) [
    | inl e ↦ absurd (cc (rw e at h))
    | inr e ↦ let (r, a) = parts _ _ (rw e at h) in (e, r, args-IsAccounted toks ps a)
  ]
    where
      parts :
          (o : Option Text) (args : Scoped (List Text))
          → with_head (cmd_base t.text) (unless_refused o args) ≡ found (head, ps)
          → (o ≡ none) × (args ≡ found ps)
      parts none (found qs) e = (refl, ground arith)
      parts none (refused why) e = cc e
      parts (some b) args e = cc e

  pub segment-IsScoped :
      (seg : Segment) (head : Text) (ps : List Text)
      → segment_scope_paths repo cwd changed seg ≡ found (head, ps)
      → IsScoped ps (tokenize_segment seg.text)
  unfolding segment_scope_paths lexed_scope
  segment-IsScoped seg head ps h = lexed (tokenize_segment seg.text) h
    where
      lexed :
          (o : Option (List Token × Bool))
          → lexed_scope repo cwd changed o ≡ found (head, ps)
          → IsScoped ps o
      lexed none e = cc e
      lexed (some (toks, true)) e = cc e
      lexed (some (toks, false)) e = (refl, words-AreScoped (strip_env toks) head ps e)

  pub IsScoped-more :
      (scope more : List Text) (o : Option (List Token × Bool))
      → ((p : Text) → IsIn scope p → IsIn more p)
      → IsScoped scope o
      → IsScoped more o
  IsScoped-more scope more none up h = h
  IsScoped-more scope more (some (toks, redirect)) up (q, h) = (q, words (strip_env toks) h)
    where
      words : (ts : List Token) → AreScoped scope ts → AreScoped more ts
      words [] i = i
      words (t ∷ ts) (e, r, a) = (e, r, All-more scope more ts up a)

  -- Each segment that is not blank is scoped.
  abbrev pub EachIsScoped : List Text → List Segment → Type 0
  EachIsScoped scope segs =
      All (λ seg. (is_blank seg.text ≡ true) ⊎ IsScoped scope (tokenize_segment seg.text)) segs

  pub EachIsScoped-more :
      (scope more : List Text) (segs : List Segment)
      → ((p : Text) → IsIn scope p → IsIn more p)
      → EachIsScoped scope segs
      → EachIsScoped more segs
  EachIsScoped-more scope more [] up h = tt
  EachIsScoped-more scope more (seg ∷ segs) up (inl b, h) =
      (inl b, EachIsScoped-more scope more segs up h)
  EachIsScoped-more scope more (seg ∷ segs) up (inr i, h) =
      (inr (IsScoped-more scope more _ up i), EachIsScoped-more scope more segs up h)
