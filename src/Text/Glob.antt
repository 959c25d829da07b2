-- ===== src/Text/Glob.antt =====
-- `path.Match` of Go's package `path`, as far as it answers true with no error: a malformed pattern
-- matches nothing. The pattern is read into its items first.
use fasthack.Prelude.{
  ℕ, Bool, true, false, not, ◌&&◌, ◌||◌, Option, none, some, List, [], ◌∷◌, ◌++◌, leb, ◌==◌,
  if◌then◌else◌,
}
use fasthack.Text.{Text}

-- A range of runes in brackets.
abbrev pub Range : Type 0
Range = ℕ × ℕ

pub data Item : Type 0 where
  star : Item
  any_rune : Item
  literal : ℕ → Item
  class : Bool → List Range → Item

-- Where the reader stands: outside brackets, behind a backslash there, behind `[`, inside brackets
-- with the ranges so far, behind a backslash there, behind the low end of a range, behind its dash,
-- and behind a backslash for the high end.
pub data Place : Type 0 where
  outside : Place
  escaped : Place
  opened : Place
  inside : Bool → List Range → Place
  in_escaped : Bool → List Range → Place
  low : Bool → List Range → ℕ → Place
  dashed : Bool → List Range → ℕ → Place
  high_escaped : Bool → List Range → ℕ → Place
  broken : Place

unfoldable pub read_outside : ℕ → Place × List Item
read_outside c =
    if c == b'*'
    then (outside, star ∷ [])
    else if c == b'?'
    then (outside, any_rune ∷ [])
    else if c == b'['
    then (opened, [])
    else if c == b'\\'
    then (escaped, [])
    else (outside, literal c ∷ [])

-- The first rune of a range.
unfoldable pub read_low : Bool → List Range → ℕ → Place
read_low negated ranges c =
    if c == b'-' || c == b']'
    then broken
    else if c == b'\\'
    then in_escaped negated ranges
    else low negated ranges c

unfoldable pub read_item : Place → ℕ → Place × List Item
read_item outside c = read_outside c
read_item escaped c = (outside, literal c ∷ [])
read_item opened c = if c == b'^' then (inside true [], []) else (read_low false [] c, [])
read_item (inside negated []) c = (read_low negated [] c, [])
read_item (inside negated (r ∷ ranges)) c =
    if c == b']'
    then (outside, class negated (r ∷ ranges) ∷ [])
    else (read_low negated (r ∷ ranges) c, [])
read_item (in_escaped negated ranges) c = (low negated ranges c, [])
read_item (low negated ranges lo) c =
    if c == b'-'
    then (dashed negated ranges lo, [])
    else if c == b']'
    then (outside, class negated ((lo, lo) ∷ ranges) ∷ [])
    else (read_low negated ((lo, lo) ∷ ranges) c, [])
read_item (dashed negated ranges lo) c =
    if c == b'-' || c == b']'
    then (broken, [])
    else if c == b'\\'
    then (high_escaped negated ranges lo, [])
    else (inside negated ((lo, c) ∷ ranges), [])
read_item (high_escaped negated ranges lo) c = (inside negated ((lo, c) ∷ ranges), [])
read_item broken c = (broken, [])

abbrev pub read_end : Place → Option (List Item)
read_end outside = some []
read_end p = none

abbrev pub items_onto : List Item → Option (List Item) → Option (List Item)
items_onto is none = none
items_onto is (some js) = some (is ++ js)

unfoldable pub read_items : Place → Text → Option (List Item)
read_items p [] = read_end p
read_items p (c ∷ s) = items_onto (read_item p c).1 (read_items (read_item p c).0 s)

unfoldable pub in_ranges : List Range → ℕ → Bool
in_ranges [] c = false
in_ranges ((lo, hi) ∷ ranges) c = leb lo c && leb c hi || in_ranges ranges c

-- A rune of the name against one item that is not a star.
unfoldable pub fits : Item → ℕ → Bool
fits star c = false
fits any_rune c = not (c == b'/')
fits (literal d) c = c == d
fits (class true ranges) c = not (in_ranges ranges c)
fits (class false ranges) c = in_ranges ranges c

-- What stands behind a star, at any later place that no slash comes before.
unfoldable pub later_place : (Text → Bool) → Text → Bool
later_place matches [] = matches []
later_place matches (c ∷ s) = matches (c ∷ s) || not (c == b'/') && later_place matches s

abbrev pub first_rune : Item → (Text → Bool) → Text → Bool
first_rune i matches [] = false
first_rune i matches (c ∷ s) = fits i c && matches s

abbrev no_rune : Text → Bool
no_rune [] = true
no_rune (c ∷ s) = false

abbrev pub at_item : Item → (Text → Bool) → Text → Bool
at_item star matches s = later_place matches s
at_item any_rune matches s = first_rune any_rune matches s
at_item (literal d) matches s = first_rune (literal d) matches s
at_item (class negated ranges) matches s = first_rune (class negated ranges) matches s

unfoldable pub match_items : List Item → Text → Bool
match_items [] s = no_rune s
match_items (i ∷ is) s = at_item i (match_items is) s

abbrev pub match_read : Option (List Item) → Text → Bool
match_read none s = false
match_read (some is) s = match_items is s

-- ok && err == nil, of path.Match(pattern, name)
unfoldable pub path_match : Text → Text → Bool
path_match pattern name = match_read (read_items outside pattern) name
