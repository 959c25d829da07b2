-- ===== src/Readset/Harmless.antt =====
-- internal/hp/readset.go: the added paths that do not refuse a promotion.
use fasthack.Prelude.{
  ◌≡◌, refl, inl, inr, false, ◌&&◌, ◌||◌, Option, none, some, List, [], ◌∷◌, arith, Option-cases,
  All,
}
use fasthack.Text.{Text, text, in_set}
use fasthack.Text.PathName.{base, dir}
use fasthack.Record.{ReadSet}
use fasthack.Text.Cut.{has_suffix}
use fasthack.Readset.Observed.{observes, matched_test_glob, test_dirs, is_import_root}
use fasthack.Readset.Added.{
  read_set_auto_discovered, first_containing_dir, or_else, named_why, glob_why, dir_why, root_why,
  why_unsafe, first_unsafe_addition,
}

-- An added path that no run picks up by name, by its discovery patterns, by walking a directory of
-- tests or by its import path.
pub record IsHarmless (rs : ReadSet) (a : Text) : Type 0 where
  pub unnamed :
      (in_set read_set_auto_discovered (base a) || has_suffix (text ".pth") (base a)) ≡ false
  pub uncollected : matched_test_glob rs (base a) ≡ none
  pub unwalked : first_containing_dir (test_dirs rs) a ≡ none
  pub unshadowing : (observes rs a && is_import_root rs (dir a)) ≡ false

or_else-none : (o p : Option Text) → or_else o p ≡ none → (o ≡ none) × (p ≡ none)
or_else-none none p h = (refl, h)
or_else-none (some x) p h = cc h

glob_why-none : (o : Option Text) → glob_why o ≡ none → o ≡ none
glob_why-none none h = refl
glob_why-none (some g) h = cc h

dir_why-none : (o : Option Text) → dir_why o ≡ none → o ≡ none
dir_why-none none h = refl
dir_why-none (some d) h = cc h

why_unsafe-IsHarmless : (rs : ReadSet) (a : Text) → why_unsafe rs a ≡ none → IsHarmless rs a
unfolding why_unsafe named_why root_why
why_unsafe-IsHarmless rs a h =
    let (n, rest) = or_else-none (named_why (base a)) _ h in
    let (g, rest') = or_else-none (glob_why (matched_test_glob rs (base a))) _ rest in
    let (d, r) =
      or_else-none (dir_why (first_containing_dir (test_dirs rs) a)) (root_why rs a) rest' in
    record {
      unnamed = ground arith;
      uncollected = glob_why-none _ g;
      unwalked = dir_why-none _ d;
      unshadowing = ground arith;
    }

pub first_unsafe_addition-IsHarmless :
    (rs : ReadSet) (added : List Text)
    → first_unsafe_addition rs added ≡ none
    → All (IsHarmless rs) added
unfolding first_unsafe_addition
first_unsafe_addition-IsHarmless rs [] h = tt
first_unsafe_addition-IsHarmless rs (a ∷ added) h = elim (Option-cases (why_unsafe rs a)) [
  | inr (why, e) ↦ absurd (cc (rw e at h))
  | inl e ↦ (why_unsafe-IsHarmless rs a e, first_unsafe_addition-IsHarmless rs added (rw e at h))
]
