-- ===== src/Text/Cut.antt =====
-- strings.CutPrefix, strings.HasSuffix, strings.Index and strings.LastIndex, by what stands around.
use fasthack.Prelude.{Bool, ◌||◌, Option, none, some, [], ◌∷◌, ◌==◌, if◌then◌else◌}
use fasthack.Text.{Text, text_eq, has_prefix}

-- strings.CutPrefix(s, p), the prefix first
unfoldable pub cut_prefix : Text → Text → Option Text
cut_prefix [] s = some s
cut_prefix (d ∷ p) [] = none
cut_prefix (d ∷ p) (c ∷ s) = let rest = cut_prefix p s in if d == c then rest else none

-- strings.HasSuffix(s, suffix), the suffix first
unfoldable pub has_suffix : Text → Text → Bool
has_suffix suffix [] = text_eq suffix []
has_suffix suffix (c ∷ s) = text_eq suffix (c ∷ s) || has_suffix suffix s

-- The text without its suffix, which it has.
unfoldable pub without_suffix : Text → Text → Text
without_suffix suffix [] = []
without_suffix suffix (c ∷ s) = if text_eq suffix (c ∷ s) then [] else c ∷ without_suffix suffix s

-- s[i+len(sub):] at the first i where `sub` stands
unfoldable pub after_first : Text → Text → Option Text
after_first sub [] = cut_prefix sub []
after_first sub (c ∷ s) =
    let later = after_first sub s in
    if has_prefix sub (c ∷ s) then cut_prefix sub (c ∷ s) else later

unfoldable pub or_cut : Option Text → Option Text → Option Text
or_cut none found = found
or_cut (some s) found = some s

-- s[i+len(sub):] at the last i where `sub` stands
unfoldable pub after_last : Text → Text → Option Text
after_last sub [] = cut_prefix sub []
after_last sub (c ∷ s) = or_cut (after_last sub s) (cut_prefix sub (c ∷ s))
