-- ===== src/Policy/Words.antt =====
-- internal/hp/policy.go: the helpers that look at one token or walk a segment's tokens.
use fasthack.Prelude.{
  ℕ, Bool, true, false, not, ◌&&◌, ◌||◌, Option, none, some, List, [], ◌∷◌, ◌==◌, leb,
  if◌then◌else◌,
}
use fasthack.Text.{
  Text, text, text_eq, is_empty, in_set, has_rune, contains, contains_any, has_prefix, ends_with,
  before,
}
use fasthack.Text.PathName.{base}
use fasthack.Policy.Tables.{non_hermetic_heads}
use fasthack.Policy.Syntax.{Token, Segment, tokenize_segment}

-- toks[1:]
abbrev pub rest : List Token → List Token
rest [] = []
rest (t ∷ toks) = toks

-- strings.HasPrefix(s, "-")
unfoldable pub is_flag : Text → Bool
is_flag [] = false
is_flag (c ∷ s) = c == b'-'

-- cmdBase
unfoldable pub cmd_base : Text → Text
cmd_base [] = []
cmd_base (c ∷ s) =
    if ends_with b'/' (c ∷ s) then [] else if has_rune b'/' (c ∷ s) then base (c ∷ s) else c ∷ s

unfoldable pub is_letter : ℕ → Bool
is_letter c = c == b'_' || leb b'A' c && leb c b'Z' || leb b'a' c && leb c b'z'

-- The loop of `isEnvAssignment`; `start` is j == 0.
unfoldable pub name_ok : Bool → Text → Bool
name_ok start [] = true
name_ok start (c ∷ s) = (is_letter c || not start && leb b'0' c && leb c b'9') && name_ok false s

-- isEnvAssignment
unfoldable pub is_env_assignment : Text → Bool
is_env_assignment s =
    let name = before b'=' s in has_rune b'=' s && not (is_empty name) && name_ok true name

-- for len(toks) > 0 && isEnvAssignment(toks[0].text) { toks = toks[1:] }
unfoldable pub strip_env : List Token → List Token
strip_env [] = []
strip_env (t ∷ toks) = if is_env_assignment t.text then strip_env toks else t ∷ toks

-- firstSubcommand, of toks[1:]
unfoldable pub first_plain : List Token → Text
first_plain [] = []
first_plain (t ∷ toks) = if is_flag t.text then first_plain toks else t.text

unfoldable pub first_subcommand : List Token → Text
first_subcommand toks = first_plain (rest toks)

-- The inner loop of `innerHead`.
unfoldable pub head_after : List Token → Option Text
head_after [] = none
head_after (t ∷ toks) = if is_flag t.text then head_after toks else some (cmd_base t.text)

-- innerHead
unfoldable pub inner_head : Text → List Token → Text
inner_head sub [] = []
inner_head sub (t ∷ toks) =
    let onward = inner_head sub toks in
    if text_eq t.text sub
    then elim (head_after toks) [ some head ↦ head | none ↦ onward ]
    else onward

-- The loop of `segHasFlag`, over toks[1:].
unfoldable pub any_is : Text → List Token → Bool
any_is flag [] = false
any_is flag (t ∷ toks) = text_eq t.text flag || any_is flag toks

-- segHasFlag
unfoldable pub seg_has_flag : List Token → Text → Bool
seg_has_flag toks flag = any_is flag (rest toks)

-- longListing
unfoldable pub long_listing : List Token → Bool
long_listing [] = false
long_listing (t ∷ toks) =
    let onward = long_listing toks in
    elim t.text [
      | [] ↦ onward
      | c ∷ a ↦
          if not (c == b'-') || has_prefix (text "-") a
          then onward
          else if contains_any a (text "lgn")
          then true
          else onward
    ]

-- One round of the loop of `nonHermeticWord`; `start` is i == 0.
unfoldable pub word_of : Bool → Token → Text
word_of start t =
    if contains (text "$RANDOM") t.bare
    then text "$RANDOM"
    else if contains (text "/dev/urandom") t.text
    then text "/dev/urandom"
    else if contains (text "/dev/random") t.text
    then text "/dev/random"
    else if not start && (t.quoted || is_flag t.text)
    then []
    else if in_set non_hermetic_heads (cmd_base t.text)
    then cmd_base t.text
    else []

-- The loop of `nonHermeticWord`. An empty result is "".
unfoldable pub word_in : Bool → List Token → Text
word_in start [] = []
word_in start (t ∷ toks) =
    let onward = word_in false toks in
    if is_empty (word_of start t) then onward else word_of start t

-- nonHermeticWord
unfoldable pub non_hermetic_word : List Token → Text
non_hermetic_word toks = word_in true toks

-- The test of the argument of a `cd`.
unfoldable pub plain_directory : Text → Bool
plain_directory arg = not (is_empty arg || is_flag arg || contains_any arg (text "$`*?[]{}"))

-- `isDirectoryChange` behind the env assignments.
unfoldable pub changes_directory : List Token → Bool
changes_directory [] = false
changes_directory (t ∷ []) = text_eq (cmd_base t.text) (text "cd")
changes_directory (t ∷ a ∷ []) = text_eq (cmd_base t.text) (text "cd") && plain_directory a.text
changes_directory (t ∷ a ∷ b ∷ toks) = false

-- What `isDirectoryChange` makes of the tokenizer's answer.
unfoldable pub is_cd : Option (List Token × Bool) → Bool
is_cd none = false
is_cd (some (toks, redirect)) = if redirect then false else changes_directory (strip_env toks)

-- isDirectoryChange
unfoldable pub is_directory_change : Segment → Bool
is_directory_change seg = is_cd (tokenize_segment seg.text)
