-- ===== src/Readset/Whole.antt =====
-- internal/hp/readset.go: the lines of a capture against the read set that is made of them.
use fasthack.Prelude.{
  ◌+◌, ◌≡◌, ◌∙◌, refl, sym, inl, inr, true, false, ◌||◌, Option, none, some, List, [], ◌∷◌, ◌++◌,
  arith, Bool-cases, Option-cases, All, length, subst, ◌==◌,
}
use mathlib.Core.Option.{some-injective}
use fasthack.Text.{Text, text, text_eq, is_empty}
use fasthack.Text.Laws.{text_eq_sound}
use fasthack.Text.Order.{sorted}
use fasthack.Scope.Covers.{IsIn}
use fasthack.Scope.Union.{IsIn-left, IsIn-right, sorted-IsIn}
use fasthack.Record.{ReadSet}
use fasthack.Readset.Observed.{python_imports, method_info}
use fasthack.Readset.Parse.{
  ReadSetLine, read_set_clean_path, cons_path, clean_paths, is_test_result, is_known, Parsed,
  accepts, parse_line, parse_lines, no_lines, read_set_of, finish, parse_read_set,
}

-- The path is clean and relative, and in the set.
abbrev pub IsKept : List Text → Text → Type 0
IsKept set p = (c : Text) × (read_set_clean_path p ≡ some c) × IsIn set c

-- A whole report of the method, all of whose paths are in the set.
pub record IsWhole (method : Text) (set : List Text) (l : ReadSetLine) : Type 0 where
  pub complete : l.complete ≡ true
  pub same_method : l.method ≡ method
  pub ended : is_test_result l.exit_status ≡ true
  pub kept : All (IsKept set) l.paths

abbrev pub EachIsWhole : Text → List Text → List (Option ReadSetLine) → Type 0
EachIsWhole method set ls = All (λ o. (l : ReadSetLine) × (o ≡ some l) × IsWhole method set l) ls

IsKept-more :
    (set more : List Text) (ps : List Text)
    → ((p : Text) → IsIn set p → IsIn more p)
    → All (IsKept set) ps
    → All (IsKept more) ps
IsKept-more set more [] up h = tt
IsKept-more set more (p ∷ ps) up ((c, e, i), h) = ((c, e, up c i), IsKept-more set more ps up h)

cons_path-some :
    (o : Option Text) (later : Option (List Text)) (cs : List Text)
    → cons_path o later ≡ some cs
    → (c : Text) × (ds : List Text) × (o ≡ some c) × (later ≡ some ds) × (cs ≡ c ∷ ds)
cons_path-some none later cs h = cc h
cons_path-some (some c) none cs h = cc h
cons_path-some (some c) (some ds) cs h = (c, ds, refl, refl, sym (some-injective _ _ h))

clean_paths-IsKept : (ps cs : List Text) → clean_paths ps ≡ some cs → All (IsKept cs) ps
unfolding clean_paths
clean_paths-IsKept [] cs h = tt
clean_paths-IsKept (p ∷ ps) cs h =
    let (c, ds, e, l, n) = cons_path-some _ _ cs h in
    subst (λ xs. All (IsKept xs) (p ∷ ps)) (sym n)
      ((c, e, inl refl), IsKept-more ds (c ∷ ds) ps (λ q i. inr i) (clean_paths-IsKept ps ds l))

module _ (real_path : Text → Text) (root : Text) where
  accepted :
      (st : Parsed) (l : ReadSetLine)
      → accepts real_path root st l ≡ true
      → (l.complete ≡ true)
        × (is_test_result l.exit_status ≡ true)
        × ((is_empty st.method || text_eq st.method l.method) ≡ true)
        × (is_known (method_info l.method) ≡ true)
  unfolding accepts
  accepted st l h = ground arith

  -- What one line adds.
  line_added :
      (st st' : Parsed) (l : ReadSetLine)
      → parse_line real_path root st l ≡ some st'
      → (cs : List Text) × (clean_paths l.paths ≡ some cs)
        × (accepts real_path root st l ≡ true)
        × (st'.method ≡ l.method)
        × (st'.paths ≡ cs ++ st.paths)
        × (st'.lines ≡ st.lines + 1)
  unfolding parse_line
  line_added st st' l h = elim (Bool-cases (accepts real_path root st l)) [
    | inr a ↦ absurd (cc (rw a at h))
    | inl a ↦ elim (Option-cases (clean_paths l.paths)) [
      | inl n ↦ absurd (cc (rw (a, n) at h))
      | inr (cs, n) ↦ let e = some-injective _ _ (rw (a, n) at h) in (cs, n, a, cc e, cc e, cc e)
    ]
  ]

-- A known method has a name.
known-not_empty : (method : Text) → is_known (method_info method) ≡ true → is_empty method ≡ false
unfolding method_info is_empty python_imports text text_eq
known-not_empty [] h = cc h
known-not_empty (c ∷ s) h = refl

-- What the loop has done with the lines behind it.
record Collected (st : Parsed) (ls : List (Option ReadSetLine)) (st' : Parsed) : Type 0 where
  grows : (p : Text) → IsIn st.paths p → IsIn st'.paths p
  keeps : is_empty st.method ≡ false → st'.method ≡ st.method
  whole : EachIsWhole st'.method st'.paths ls
  number : st'.lines ≡ st.lines + length ls

module _ (real_path : Text → Text) (root : Text) where
  Collected-cons :
      (st st₁ st' : Parsed) (l : ReadSetLine) (ls : List (Option ReadSetLine))
      → parse_line real_path root st l ≡ some st₁
      → Collected st₁ ls st'
      → Collected st (some l ∷ ls) st'
  Collected-cons st st₁ st' l ls e c =
      let (cs, n, a, method, paths, lines) = line_added real_path root st st₁ l e in
      let (complete, ended, same, known) = accepted real_path root st l a in
      let named : is_empty st₁.method ≡ false = rw method (known-not_empty l.method known) in
      record {
        grows = λ p i. c.grows p (rw paths (IsIn-right cs st.paths p i));
        keeps = λ f. c.keeps named ∙ method ∙ sym (text_eq_sound st.method l.method (rw f at same));
        whole = (
          (
            l,
            refl,
            record {
              complete = complete;
              same_method = sym method ∙ sym (c.keeps named);
              ended = ended;
              kept =
                  IsKept-more cs st'.paths l.paths
                    (λ p i. c.grows p (rw paths (IsIn-left cs st.paths p i)))
                    (clean_paths-IsKept l.paths cs n);
            },
          ),
          c.whole,
        );
        number = omega (arith, lines, c.number);
      }

  lines-Collected :
      (st : Parsed) (ls : List (Option ReadSetLine)) (st' : Parsed)
      → parse_lines real_path root st ls ≡ some st'
      → Collected st ls st'
  unfolding parse_lines
  lines-Collected st [] st' h =
      subst (Collected st []) (some-injective _ _ h)
        (record { grows = λ p i. i; keeps = λ f. refl; whole = tt; number = omega arith })
  lines-Collected st (none ∷ ls) st' h = cc h
  lines-Collected st (some l ∷ ls) st' h = elim (Option-cases (parse_line real_path root st l)) [
    | inl n ↦ absurd (cc (rw n at h))
    | inr (st₁, n) ↦ Collected-cons st st₁ st' l ls n (lines-Collected st₁ ls st' (rw n at h))
  ]

-- Each line of a capture that is accepted is a complete report of the set's method by a run that ended
-- as tests end, and every path that it names is clean and in the set; the number of processes is that
-- of the lines, and there is one.
pub parse_read_set-EachIsWhole :
    (real_path : Text → Text) (root : Text) (ls : List (Option ReadSetLine)) (rs : ReadSet)
    → parse_read_set real_path root ls ≡ some rs
    → EachIsWhole rs.method rs.paths ls × (rs.processes ≡ length ls) × ((rs.processes == 0) ≡ false)
unfolding parse_read_set
parse_read_set-EachIsWhole real_path root ls rs h = parsed _ refl h
  where
    whole_more :
        (method : Text) (set more : List Text) (ms : List (Option ReadSetLine))
        → ((p : Text) → IsIn set p → IsIn more p)
        → EachIsWhole method set ms
        → EachIsWhole method more ms
    whole_more method set more [] up w = tt
    whole_more method set more (o ∷ ms) up ((l, e, w), ws) = (
      (
        l,
        e,
        record {
          complete = w.complete;
          same_method = w.same_method;
          ended = w.ended;
          kept = IsKept-more set more l.paths up w.kept;
        },
      ),
      whole_more method set more ms up ws,
    )

    result :
        (st : Parsed)
        → Collected no_lines ls st
        → (st.lines == 0) ≡ false
        → EachIsWhole (read_set_of st).method (read_set_of st).paths ls
          × ((read_set_of st).processes ≡ length ls)
          × (((read_set_of st).processes == 0) ≡ false)
    result st c z = (
      whole_more st.method st.paths (sorted st.paths) ls (sorted-IsIn st.paths) c.whole,
      omega (arith, c.number),
      z,
    )

    parsed :
        (o : Option Parsed)
        → parse_lines real_path root no_lines ls ≡ o
        → finish o ≡ some rs
        → EachIsWhole rs.method rs.paths ls
          × (rs.processes ≡ length ls)
          × ((rs.processes == 0) ≡ false)
    parsed none e f = cc f
    parsed (some st) e f = elim (Bool-cases (st.lines == 0)) [
      | inl z ↦ absurd (cc (rw z at f))
      | inr z ↦
          subst
            (λ (r : ReadSet).
              EachIsWhole r.method r.paths ls
              × (r.processes ≡ length ls)
              × ((r.processes == 0) ≡ false))
            (some-injective _ _ (rw z at f))
            (result st (lines-Collected real_path root no_lines ls st e) z)
    ]
