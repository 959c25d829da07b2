-- ===== src/Artifact/Relocate.antt =====
-- internal/hp/artifact.go: the substitution of one worktree root for another.
use fasthack.Prelude.{
  ℕ, zero, suc, ◌-◌, Bool, false, not, ◌&&◌, ◌||◌, Option, none, some, List, [], ◌∷◌, ◌++◌, ltb,
  leb, ◌==◌, if◌then◌else◌, length, drop,
}
use fasthack.Text.{Text, text, text_eq, is_empty, has_prefix}
use fasthack.Text.Cut.{cut_prefix}
use fasthack.Dict.{Dict, get, put}
use fasthack.Sort.{sort_by}
use fasthack.Artifact.{Tree}

-- rootPair
pub record RootPair : Type 0 where
  pub from : Text
  pub to : Text

-- isPathNameByte
unfoldable pub is_path_name_byte : ℕ → Bool
is_path_name_byte c =
    c == b'_'
    || c == b'-'
    || c == b'.'
    || (leb b'0' c && leb c b'9')
    || (leb b'a' c && leb c b'z')
    || (leb b'A' c && leb c b'Z')

-- Whether the text goes on with the name of a path's component.
unfoldable pub continues : Text → Bool
continues [] = false
continues (c ∷ s) = is_path_name_byte c

unfoldable pub matches_root : RootPair → Text → Bool
matches_root p s =
    not (is_empty p.from) && has_prefix p.from s && not (continues (drop (length p.from) s))

-- The inner loop of `Replace`: the first pair that matches here.
unfoldable pub hit : List RootPair → Text → Option RootPair
hit [] s = none
hit (p ∷ ps) s = let later = hit ps s in if matches_root p s then some p else later

unfoldable pub written : Option RootPair → ℕ → Text → Text
written none c s = c ∷ s
written (some p) c s = p.to ++ s

unfoldable pub width : Option RootPair → ℕ
width none = 0
width (some p) = length p.from - 1

-- The outer loop, with the number of bytes that the last match has taken.
unfoldable pub replace_from : List RootPair → Text → ℕ → Text
replace_from ps [] taken = []
replace_from ps (c ∷ s) (suc taken) = replace_from ps s taken
replace_from ps (c ∷ s) zero =
    written (hit ps (c ∷ s)) c (replace_from ps s (width (hit ps (c ∷ s))))

-- rootReplacer.Replace
unfoldable pub replace : List RootPair → Text → Text
replace ps s = replace_from ps s 0

-- unresolvePath, by whether the system is darwin
unfoldable pub or_path : Text → Option Text → Text
or_path p none = p
or_path p (some rest) = b'/' ∷ rest

unfoldable pub unresolve_path : Bool → Text → Text
unresolve_path darwin p = if darwin then or_path p (cut_prefix (text "/private/") p) else p

unfoldable pub usable_pair : Text → Text → Bool
usable_pair a b = not (is_empty a || is_empty b || text_eq a b)

-- pairs, where the second spelling is dropped if its source was seen
unfoldable pub root_pairs : Text → Text → Text → Text → List RootPair
root_pairs a b a' b' =
    let second =
      if usable_pair a' b' && not (usable_pair a b && text_eq a a')
      then record { from = a'; to = b' } ∷ []
      else [] in
    if usable_pair a b then record { from = a; to = b } ∷ second else second

unfoldable pub longer_from : RootPair → RootPair → Bool
longer_from p q = ltb (length q.from) (length p.from)

unfoldable pub reversed : List RootPair → List RootPair
reversed [] = []
reversed (p ∷ ps) = record { from = p.to; to = p.from } ∷ reversed ps

-- relocationReplacers
unfoldable pub relocation_replacers : Bool → Text → Text → List RootPair × List RootPair
relocation_replacers darwin src dst =
    let pairs =
      sort_by longer_from
        (root_pairs src dst (unresolve_path darwin src) (unresolve_path darwin dst)) in
    (pairs, sort_by longer_from (reversed pairs))

-- The rewriting of some texts by their paths; a path that is not there is the error.
unfoldable pub rewrite_at : List RootPair → Text → Option Text → Dict Text → Option (Dict Text)
rewrite_at ps rel none m = none
rewrite_at ps rel (some b) m = some (put m rel (replace ps b))

unfoldable pub rewrite_all : List RootPair → List Text → Option (Dict Text) → Option (Dict Text)
rewrite_all ps rels none = none
rewrite_all ps [] (some m) = some m
rewrite_all ps (rel ∷ rels) (some m) = rewrite_all ps rels (rewrite_at ps rel (get m rel) m)

unfoldable pub both_parts : List Text → Option (Dict Text) → Option (Dict Text) → Option Tree
both_parts dirs none links = none
both_parts dirs (some files) none = none
both_parts dirs (some files) (some links) =
    some (record { files = files; links = links; dirs = dirs })

-- applyRewrites; `none` is the error
unfoldable pub apply_rewrites : Tree → List Text → List Text → List RootPair → Option Tree
apply_rewrites stage files links ps =
    both_parts stage.dirs (rewrite_all ps files (some stage.files))
      (rewrite_all ps links (some stage.links))
