-- ===== src/Scope/Tests.antt =====
-- internal/hp/scope.go: commands on a small repository.
use fasthack.Prelude.{◌≡◌, ◌↔◌, refl, Bool, true, false, ◌||◌, [], ◌∷◌, ◌++◌}
use fasthack.Text.{Text, text_eq, codes}
use fasthack.Scope.{Repo, printed}
use fasthack.Text.PathName.{clean}
use fasthack.Policy.Syntax.{split_segments, has_command_substitution}
use fasthack.Scope.Paths.{scope_paths_conflict}
use fasthack.Scope.Conflict.{Overlap, scope_paths_conflict-Overlap_iff}
use fasthack.Scope.Promotion.{IsPromotable, scope_match_at-IsPromotable}
use fasthack.Scope.Union.{command_scope_paths-EachIsScoped}
use fasthack.Scope.Covers.{EachIsScoped}
use fasthack.Scope.Run.{run_scope_match_at}

-- A tree with two files, of which `changed` differs.
abbrev repo_with : Text → Repo
repo_with changed = record {
  root = codes "/repo";
  exists = λ p. text_eq p (codes "a.py") || text_eq p (codes "SUMS");
  diff_names = λ a b. printed (changed ++ 0 ∷ []);
  added_names = λ a b. printed [];
}

abbrev tree_a : Text
tree_a = codes "aaaaaaaaaaaaaaaaaaaaaaaaaaaaaaaaaaaaaaaa"

abbrev tree_b : Text
tree_b = codes "bbbbbbbbbbbbbbbbbbbbbbbbbbbbbbbbbbbbbbbb"

abbrev promotes : Text → Text → Bool
promotes changed cmd = (run_scope_match_at (repo_with changed) tree_a tree_b cmd []).promoted

apart : promotes (codes "b.py") (codes "cat a.py") ≡ true
unfolding run_scope_match_at text_eq
apart = refl

inside : promotes (codes "a.py") (codes "cat a.py") ≡ false
unfolding run_scope_match_at text_eq
inside = refl

imports : promotes (codes "b.py") (codes "pytest a.py") ≡ false
unfolding run_scope_match_at text_eq
imports = refl

configured : promotes (codes "sub/conftest.py") (codes "cat a.py") ≡ false
unfolding run_scope_match_at text_eq
configured = refl

-- The sums of the files that SUMS lists, b.py among them, are compared.
listed : promotes (codes "b.py") (codes "md5sum -c SUMS") ≡ true
unfolding run_scope_match_at text_eq
listed = refl

-- A file whose name has a double colon.
double_colon : promotes (codes "b::c") (codes "cat a.py b::c") ≡ true
unfolding run_scope_match_at text_eq
double_colon = refl

abbrev small : Repo
small = repo_with (codes "src/b.py")

abbrev cat_a : Text
cat_a = codes "cat -n ./a.py | head -5"

scope_match_at-IsPromotable_example : IsPromotable small tree_a tree_b cat_a []
unfolding run_scope_match_at
scope_match_at-IsPromotable_example = scope_match_at-IsPromotable small tree_a tree_b cat_a [] refl

command_scope_paths-EachIsScoped_example :
    (has_command_substitution cat_a ≡ false)
    × EachIsScoped small [] (codes "src/b.py" ∷ []) (codes "a.py" ∷ []) (split_segments cat_a)
unfolding run_scope_match_at
command_scope_paths-EachIsScoped_example =
    command_scope_paths-EachIsScoped small [] cat_a (codes "src/b.py" ∷ []) (codes "a.py" ∷ []) refl

scope_paths_conflict-Overlap_iff_example :
    (scope_paths_conflict (codes "src") (codes "src2/x.py") ≡ true)
    ↔ Overlap (clean (codes "src")) (clean (codes "src2/x.py"))
scope_paths_conflict-Overlap_iff_example =
    scope_paths_conflict-Overlap_iff (codes "src") (codes "src2/x.py")

no_prefix : scope_paths_conflict (codes "src") (codes "src2/x.py") ≡ false
unfolding run_scope_match_at
no_prefix = refl
