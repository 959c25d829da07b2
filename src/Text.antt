-- ===== src/Text.antt =====
-- Go strings, as the lists of their runes, with what the program uses of the packages `strings`,
-- `bytes` and `unicode`. Every test below looks for ASCII characters, or for white space and digits
-- rune by rune, so that bytes and runes give one answer.
pub mod Laws
pub mod Cut
pub mod Scan
pub mod PathName
pub mod Order
pub mod Glob
pub mod Base64
use Prim.Native.Char.{code}
use fasthack.Prelude.{
  ℕ, zero, suc, ◌+◌, String, Bool, true, false, ◌&&◌, ◌||◌, Option, none, some, List, [], ◌∷◌, ◌++◌,
  not, ltb, leb, ◌==◌, if◌then◌else◌, length,
}

abbrev pub Text : Type 0
Text = List ℕ

-- The runes of a literal, from a list that the tactics see through.
abbrev pub codes : String → Text
codes String.[] = []
codes (String.◌∷◌ c s) = code c ∷ codes s

-- The same, shut: a literal that a proof need not read.
unfoldable pub text : String → Text
text s = codes s

-- a == b on strings
unfoldable pub text_eq : Text → Text → Bool
text_eq [] [] = true
text_eq [] (d ∷ t) = false
text_eq (c ∷ s) [] = false
text_eq (c ∷ s) (d ∷ t) = c == d && text_eq s t

-- s == ""
unfoldable pub is_empty : Text → Bool
is_empty [] = true
is_empty (c ∷ s) = false

-- A lookup in a `map[string]bool` whose entries are all true.
unfoldable pub in_set : List String → Text → Bool
in_set [] t = false
in_set (s ∷ set) t = text_eq (text s) t || in_set set t

-- strings.ContainsRune, strings.IndexByte(s, c) >= 0
unfoldable pub has_rune : ℕ → Text → Bool
has_rune x [] = false
has_rune x (c ∷ s) = c == x || has_rune x s

-- strings.ContainsAny
unfoldable pub contains_any : Text → Text → Bool
contains_any [] chars = false
contains_any (c ∷ s) chars = has_rune c chars || contains_any s chars

-- strings.HasPrefix(s, p), the prefix first
unfoldable pub has_prefix : Text → Text → Bool
has_prefix [] s = true
has_prefix (p ∷ ps) [] = false
has_prefix (p ∷ ps) (c ∷ s) = p == c && has_prefix ps s

-- strings.Contains(s, sub), the substring first
unfoldable pub contains : Text → Text → Bool
contains sub [] = has_prefix sub []
contains sub (c ∷ s) = has_prefix sub (c ∷ s) || contains sub s

-- strings.HasSuffix(s, string(x)) for one character
unfoldable pub ends_with : ℕ → Text → Bool
ends_with x [] = false
ends_with x (c ∷ []) = c == x
ends_with x (c ∷ d ∷ s) = ends_with x (d ∷ s)

-- strings.TrimSuffix(s, string(x)) for one character
unfoldable pub trim_last : ℕ → Text → Text
trim_last x [] = []
trim_last x (c ∷ []) = if c == x then [] else c ∷ []
trim_last x (c ∷ d ∷ s) = c ∷ trim_last x (d ∷ s)

-- What stands before the first `x`, the whole text if there is none.
unfoldable pub before : ℕ → Text → Text
before x [] = []
before x (c ∷ s) = if c == x then [] else c ∷ before x s

-- What stands behind the first `x`.
unfoldable pub after : ℕ → Text → Option Text
after x [] = none
after x (c ∷ s) = if c == x then some s else after x s

-- unicode.IsSpace
unfoldable pub is_space : ℕ → Bool
is_space c =
    leb 9 c && leb c 13
    || c == 32
    || c == 0x85
    || c == 0xa0
    || c == 0x1680
    || leb 0x2000 c && leb c 0x200a
    || c == 0x2028
    || c == 0x2029
    || c == 0x202f
    || c == 0x205f
    || c == 0x3000

-- strings.TrimSpace(s) == ""
unfoldable pub is_blank : Text → Bool
is_blank [] = true
is_blank (c ∷ s) = is_space c && is_blank s

-- strings.TrimLeft(s, unicode.IsSpace)
unfoldable pub trim_left : Text → Text
trim_left [] = []
trim_left (c ∷ s) = if is_space c then trim_left s else c ∷ s

-- strings.TrimRight(s, unicode.IsSpace)
unfoldable pub trim_right : Text → Text
trim_right [] = []
trim_right (c ∷ s) = if is_blank (c ∷ s) then [] else c ∷ trim_right s

-- strings.TrimSpace
unfoldable pub trim_space : Text → Text
trim_space s = trim_right (trim_left s)

-- The first of each ten decimal digits of the category Nd, Unicode 15.
abbrev digit_zeros : List ℕ
digit_zeros =
    0x30 ∷ 0x660 ∷ 0x6f0 ∷ 0x7c0 ∷ 0x966 ∷ 0x9e6 ∷ 0xa66 ∷ 0xae6 ∷ 0xb66 ∷ 0xbe6 ∷ 0xc66 ∷ 0xce6
    ∷ 0xd66 ∷ 0xde6 ∷ 0xe50 ∷ 0xed0 ∷ 0xf20 ∷ 0x1040 ∷ 0x1090 ∷ 0x17e0 ∷ 0x1810 ∷ 0x1946 ∷ 0x19d0
    ∷ 0x1a80 ∷ 0x1a90 ∷ 0x1b50 ∷ 0x1bb0 ∷ 0x1c40 ∷ 0x1c50 ∷ 0xa620 ∷ 0xa8d0 ∷ 0xa900 ∷ 0xa9d0
    ∷ 0xa9f0 ∷ 0xaa50 ∷ 0xabf0 ∷ 0xff10 ∷ 0x104a0 ∷ 0x10d30 ∷ 0x11066 ∷ 0x110f0 ∷ 0x11136 ∷ 0x111d0
    ∷ 0x112f0 ∷ 0x11450 ∷ 0x114d0 ∷ 0x11650 ∷ 0x116c0 ∷ 0x11730 ∷ 0x118e0 ∷ 0x11950 ∷ 0x11c50
    ∷ 0x11d50 ∷ 0x11da0 ∷ 0x11f50 ∷ 0x16a60 ∷ 0x16ac0 ∷ 0x16b50 ∷ 0x1d7ce ∷ 0x1d7d8 ∷ 0x1d7e2
    ∷ 0x1d7ec ∷ 0x1d7f6 ∷ 0x1e140 ∷ 0x1e2f0 ∷ 0x1e4f0 ∷ 0x1e950 ∷ 0x1fbf0 ∷ []

unfoldable pub in_tens : List ℕ → ℕ → Bool
in_tens [] c = false
in_tens (z ∷ zs) c = leb z c && ltb c (z + 10) || in_tens zs c

-- unicode.IsDigit
unfoldable pub is_digit : ℕ → Bool
is_digit c = in_tens digit_zeros c

-- unicode.ToLower, on the runes whose lower case is ASCII; the program looks the result up in a
-- table of ASCII texts, and no other rune becomes ASCII.
unfoldable pub to_lower : ℕ → ℕ
to_lower c =
    if leb b'A' c && leb c b'Z'
    then c + 32
    else if c == 0x130
    then b'i'
    else if c == 0x212a
    then b'k'
    else c
