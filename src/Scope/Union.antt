-- ===== src/Scope/Union.antt =====
-- internal/hp/scope.go: the segments of a command against the scope that is made of them.
use fasthack.Prelude.{
  ◌≡◌, refl, sym, inl, inr, false, List, [], ◌∷◌, ◌++◌, arith, Bool-cases, subst,
}
use fasthack.Text.{Text, text_eq, is_blank}
use fasthack.Text.Laws.{text_eq_sound}
use fasthack.Text.Order.{text_less, insert, sorted}
use fasthack.Policy.Syntax.{Segment, tokenize_segment, split_segments, has_command_substitution}
use fasthack.Scope.{Repo, Scoped, found, refused}
use fasthack.Scope.Args.{
  reads_pipe, prepend, union, segments_scope, not_unscoped, command_scope_paths, all_blank,
}
use fasthack.Scope.Covers.{IsIn, EachIsScoped, segment-IsScoped, IsScoped-more, EachIsScoped-more}

pub IsIn-left : (ps qs : List Text) (p : Text) → IsIn ps p → IsIn (ps ++ qs) p
IsIn-left [] qs p i = absurd i
IsIn-left (q ∷ ps) qs p (inl e) = inl e
IsIn-left (q ∷ ps) qs p (inr i) = inr (IsIn-left ps qs p i)

pub IsIn-right : (ps qs : List Text) (p : Text) → IsIn qs p → IsIn (ps ++ qs) p
IsIn-right [] qs p i = i
IsIn-right (q ∷ ps) qs p i = inr (IsIn-right ps qs p i)

insert_later :
    (q r : Text) (ps more : List Text) (p : Text)
    → (IsIn (q ∷ ps) p → IsIn more p)
    → IsIn (q ∷ r ∷ ps) p
    → IsIn (r ∷ more) p
insert_later q r ps more p up (inl f) = inr (up (inl f))
insert_later q r ps more p up (inr (inl f)) = inl f
insert_later q r ps more p up (inr (inr j)) = inr (up (inr j))

insert_same :
    (q r : Text) (ps : List Text) (p : Text) → q ≡ r → IsIn (q ∷ r ∷ ps) p → IsIn (r ∷ ps) p
insert_same q r ps p e (inl f) = inl (cc (e, f))
insert_same q r ps p e (inr j) = j

insert-IsIn : (q : Text) (ps : List Text) (p : Text) → IsIn (q ∷ ps) p → IsIn (insert q ps) p
unfolding insert
insert-IsIn q [] p i = i
insert-IsIn q (r ∷ ps) p i = elim (Bool-cases (text_eq q r)) [
  | inl e ↦ rw e (insert_same q r ps p (text_eq_sound q r e) i)
  | inr e ↦ elim (Bool-cases (text_less q r)) [
    | inl l ↦ rw (e, l) i
    | inr l ↦ rw (e, l) (insert_later q r ps (insert q ps) p (insert-IsIn q ps p) i)
  ]
]

-- Nothing is lost by sorting and dropping repetitions.
pub sorted-IsIn : (ps : List Text) (p : Text) → IsIn ps p → IsIn (sorted ps) p
unfolding sorted
sorted-IsIn [] p i = i
sorted-IsIn (q ∷ ps) p (inl e) = insert-IsIn q (sorted ps) p (inl e)
sorted-IsIn (q ∷ ps) p (inr i) = insert-IsIn q (sorted ps) p (inr (sorted-IsIn ps p i))

prepend-found :
    (ps : List Text) (later : Scoped (List Text)) (scope : List Text)
    → prepend ps later ≡ found scope
    → (qs : List Text) × (later ≡ found qs) × (scope ≡ ps ++ qs)
prepend-found ps (refused why) scope h = cc h
prepend-found ps (found qs) scope h = (qs, refl, ground arith)

module _ (repo : Repo) (cwd : Text) (changed : List Text) where
  union-found :
      (seg : Segment) (o : Scoped (Text × List Text)) (later : Scoped (List Text))
      (scope : List Text)
      → union seg o later ≡ found scope
      → (head : Text) × (ps : List Text) × (qs : List Text) × (o ≡ found (head, ps))
        × (later ≡ found qs)
        × (scope ≡ ps ++ qs)
  unfolding union
  union-found seg (refused why) later scope h = cc h
  union-found seg (found (head, [])) later scope h = elim (Bool-cases (reads_pipe seg head)) [
    | inr e ↦ absurd (cc (rw e at h))
    | inl e ↦
        let (qs, l, n) = prepend-found [] later scope (rw e at h) in (head, [], qs, refl, l, n)
  ]
  union-found seg (found (head, p ∷ ps)) later scope h =
      let (qs, l, n) = prepend-found (p ∷ ps) later scope h in (head, p ∷ ps, qs, refl, l, n)

  segments-EachIsScoped :
      (segs : List Segment) (scope : List Text)
      → segments_scope repo cwd changed segs ≡ found scope
      → EachIsScoped repo cwd changed scope segs
  unfolding segments_scope
  segments-EachIsScoped [] scope h = tt
  segments-EachIsScoped (seg ∷ segs) scope h = elim (Bool-cases (is_blank seg.text)) [
    | inl b ↦ (inl b, segments-EachIsScoped segs scope (rw b at h))
    | inr b ↦
        let (head, ps, qs, o, l, e) = union-found seg _ _ scope (rw b at h) in
        let first = segment-IsScoped repo cwd changed seg head ps o in
        let more = segments-EachIsScoped segs qs l in
        subst (λ x. EachIsScoped repo cwd changed x (seg ∷ segs)) (sym e)
          (
            inr (
                IsScoped-more repo cwd changed ps (ps ++ qs) (tokenize_segment seg.text)
                  (IsIn-left ps qs) first),
            EachIsScoped-more repo cwd changed qs (ps ++ qs) segs (IsIn-right ps qs) more,
          )
  ]

-- A command that has a scope has no command substitution, and each of its segments is blank, or
-- closes its quotes, redirects nothing into a file, names no command that reads the whole tree, and
-- has only arguments that are empty, or flags, or hold no shell expansion. What is left of the last
-- ones, cut where a node id begins with a double colon, is in the scope, resolved at the working
-- directory; or it is empty or a dot; or it neither looks like a path nor names a changed one. A
-- file whose name has a double colon is thus missed.
pub command_scope_paths-EachIsScoped :
    (repo : Repo) (cwd cmd : Text) (changed scope : List Text)
    → command_scope_paths repo cwd changed cmd ≡ found scope
    → (has_command_substitution cmd ≡ false)
      × EachIsScoped repo cwd changed scope (split_segments cmd)
unfolding command_scope_paths
command_scope_paths-EachIsScoped repo cwd cmd changed scope h = elim (Bool-cases (is_blank cmd)) [
  | inl b ↦ absurd (cc (rw b at h))
  | inr b ↦ elim (Bool-cases (has_command_substitution cmd)) [
    | inl s ↦ absurd (cc (rw (b, s) at h))
    | inr s ↦ elim (Bool-cases (all_blank (split_segments cmd))) [
      | inl a ↦ absurd (cc (rw (b, s, a) at h))
      | inr a ↦ (s, all _ refl (rw (b, s, a) at h))
    ]
  ]
]
  where
    all :
        (o : Scoped (List Text))
        → segments_scope repo cwd changed (split_segments cmd) ≡ o
        → not_unscoped o ≡ found scope
        → EachIsScoped repo cwd changed scope (split_segments cmd)
    all (refused why) e n = cc n
    all (found []) e n = cc n
    all (found (p ∷ ps)) e n =
        let same : sorted (p ∷ ps) ≡ scope = ground arith in
        subst (λ qs. EachIsScoped repo cwd changed qs (split_segments cmd)) same
          (EachIsScoped-more repo cwd changed (p ∷ ps) (sorted (p ∷ ps)) (split_segments cmd)
            (sorted-IsIn (p ∷ ps))
            (segments-EachIsScoped repo cwd changed (split_segments cmd) (p ∷ ps) e))
