-- ===== src/Policy/Syntax.antt =====
-- The lexical half of internal/hp/policy.go: hasCommandSubstitution, splitSegments and
-- tokenizeSegment. Each is one loop over the runes; the inner loops over a quoted part are modes of it.
use fasthack.Prelude.{
  ℕ, Bool, true, false, not, ◌&&◌, ◌||◌, Option, none, some, List, [], ◌∷◌, ◌++◌, ◌==◌,
  if◌then◌else◌,
}
use fasthack.Text.{Text, is_digit}
use fasthack.Text.Scan.{scan}

abbrev pub is_some_rune : Text → Bool
is_some_rune [] = false
is_some_rune (c ∷ r) = true

-- i+1 < len(rs) && rs[i+1] == x
abbrev pub peek_is : ℕ → Text → Bool
peek_is x [] = false
peek_is x (c ∷ r) = c == x

-- The variables of `hasCommandSubstitution`; `found` is its early return.
pub record Quoting : Type 0 where
  pub in_single : Bool
  pub in_double : Bool
  pub found : Bool

unfoldable pub substitution_step : Quoting → ℕ → Text → Quoting × ℕ
substitution_step q c r =
    if q.found
    then (q, 0)
    else if c == b'\\' && not q.in_single && is_some_rune r
    then (q, 1)
    else if c == b'\'' && not q.in_double
    then (record q { in_single = not q.in_single }, 0)
    else if c == b'"' && not q.in_single
    then (record q { in_double = not q.in_double }, 0)
    else if q.in_single
    then (q, 0)
    else if c == b'`'
    then (record q { found = true }, 0)
    else if c == b'$' && peek_is b'(' r
    then (record q { found = true }, 0)
    else (q, 0)

abbrev pub no_quoting : Quoting
no_quoting = record { in_single = false; in_double = false; found = false }

unfoldable pub has_command_substitution : Text → Bool
has_command_substitution cmd = (scan substitution_step 0 no_quoting cmd).found

-- The separator that introduced a segment: "", "&&", "||", ";" or "|".
pub data Sep : Type 0 where
  first and_then or_else semicolon pipe : Sep

-- shellSegment
pub record Segment : Type 0 where
  pub sep : Sep
  pub text : Text

-- The rune `quote`, which is 0, ' or ".
pub data Quote : Type 0 where
  unquoted single double : Quote

-- The variables of `splitSegments`.
pub record Split : Type 0 where
  pub segs : List Segment
  pub buffer : Text
  pub quote : Quote
  pub sep : Sep

-- b.WriteRune(c)
abbrev write : ℕ → Split → Split
write c s = record s { buffer = s.buffer ++ c ∷ [] }

-- b.WriteRune(c); i++; b.WriteRune(rs[i]), where there is such a rune
abbrev write_pair : ℕ → Text → Split → Split
write_pair c [] s = write c s
write_pair c (d ∷ r) s = record s { buffer = s.buffer ++ c ∷ d ∷ [] }

-- the closure `flush`
abbrev cut : Sep → Split → Split
cut next s = record s {
  segs = s.segs ++ (record { sep = s.sep; text = s.buffer }) ∷ [];
  buffer = [];
  sep = next;
}

unfoldable pub split_single : Split → ℕ → Text → Split × ℕ
split_single s c r =
    if c == b'\'' then (record (write c s) { quote = unquoted }, 0) else (write c s, 0)

unfoldable pub split_double : Split → ℕ → Text → Split × ℕ
split_double s c r =
    if c == b'\\' && is_some_rune r
    then (write_pair c r s, 1)
    else if c == b'"'
    then (record (write c s) { quote = unquoted }, 0)
    else (write c s, 0)

unfoldable pub split_unquoted : Split → ℕ → Text → Split × ℕ
split_unquoted s c r =
    if c == b'\\' && is_some_rune r
    then (write_pair c r s, 1)
    else if c == b'\''
    then (record (write c s) { quote = single }, 0)
    else if c == b'"'
    then (record (write c s) { quote = double }, 0)
    else if c == b'&' && peek_is b'&' r
    then (cut and_then s, 1)
    else if c == b'|' && peek_is b'|' r
    then (cut or_else s, 1)
    else if c == b'|'
    then (cut pipe s, 0)
    else if c == b';' || c == 10
    then (cut semicolon s, 0)
    else (write c s, 0)

abbrev split_in : Quote → Split → ℕ → Text → Split × ℕ
split_in unquoted = split_unquoted
split_in single = split_single
split_in double = split_double

unfoldable pub split_step : Split → ℕ → Text → Split × ℕ
split_step s c r = split_in s.quote s c r

abbrev pub split_start : Split
split_start = record { segs = []; buffer = []; quote = unquoted; sep = first }

-- flush(""); return segs
abbrev pub split_end : Split → List Segment
split_end s = (cut first s).segs

unfoldable pub split_segments : Text → List Segment
split_segments cmd = split_end (scan split_step 0 split_start cmd)

-- shellToken
pub record Token : Type 0 where
  pub text : Text
  pub bare : Text
  pub quoted : Bool

-- The variables of `tokenizeSegment`, with the loop that the next rune belongs to.
pub record Lexer : Type 0 where
  pub toks : List Token
  pub text : Text
  pub bare : Text
  pub quoted : Bool
  pub have : Bool
  pub redirect : Bool
  pub mode : Quote

-- the closure `flush`
abbrev pub flush : Lexer → Lexer
flush l =
    if l.have
    then record l {
      toks = l.toks ++ (record { text = l.text; bare = l.bare; quoted = l.quoted }) ∷ [];
      text = [];
      bare = [];
      quoted = false;
      have = false;
    }
    else l

-- text.WriteRune(c); bare.WriteRune(c)
abbrev both : ℕ → Lexer → Lexer
both c l = record l { text = l.text ++ c ∷ []; bare = l.bare ++ c ∷ [] }

-- i++; text.WriteRune(rs[i]); bare.WriteRune(rs[i])
abbrev both_next : Text → Lexer → Lexer
both_next [] l = l
both_next (d ∷ r) l = both d l

abbrev lex_single : Lexer → ℕ → Text → Lexer × ℕ
lex_single l c r =
    if c == b'\''
    then (record l { mode = unquoted }, 0)
    else (record l { text = l.text ++ c ∷ [] }, 0)

abbrev lex_double : Lexer → ℕ → Text → Lexer × ℕ
lex_double l c r =
    if c == b'\\' && is_some_rune r
    then (both_next r l, 1)
    else if c == b'"'
    then (record l { mode = unquoted }, 0)
    else (both c l, 0)

-- rs[i+1] == '&' && (unicode.IsDigit(rs[i+2]) || rs[i+2] == '-')
unfoldable pub duplicates_fd : Text → Bool
duplicates_fd [] = false
duplicates_fd (a ∷ []) = false
duplicates_fd (a ∷ d ∷ r) = a == b'&' && (is_digit d || d == b'-')

-- The rest of the case of '>', from the rune behind it on.
unfoldable pub lex_redirect : Lexer → Text → Lexer × ℕ
lex_redirect l [] = (record l { redirect = true }, 0)
lex_redirect l (d ∷ r) =
    if d == b'>'
    then (if duplicates_fd r then (l, 3) else (record l { redirect = true }, 1))
    else (if duplicates_fd (d ∷ r) then (l, 2) else (record l { redirect = true }, 0))

unfoldable pub lex_unquoted : Lexer → ℕ → Text → Lexer × ℕ
lex_unquoted l c r =
    if c == b' ' || c == 9 || c == 10 || c == 13
    then (flush l, 0)
    else if c == b'\''
    then (record l { have = true; quoted = true; mode = single }, 0)
    else if c == b'"'
    then (record l { have = true; quoted = true; mode = double }, 0)
    else if c == b'\\'
    then (if is_some_rune r
        then (both_next r (record l { have = true; quoted = true }), 1)
        else (l, 0))
    else if c == b'>'
    then lex_redirect (flush l) r
    else if c == b'<'
    then (flush l, 0)
    else (both c (record l { have = true }), 0)

abbrev lex_in : Quote → Lexer → ℕ → Text → Lexer × ℕ
lex_in unquoted = lex_unquoted
lex_in single = lex_single
lex_in double = lex_double

unfoldable pub lex_step : Lexer → ℕ → Text → Lexer × ℕ
lex_step l c r = lex_in l.mode l c r

abbrev pub lex_start : Lexer
lex_start = record {
  toks = [];
  text = [];
  bare = [];
  quoted = false;
  have = false;
  redirect = false;
  mode = unquoted;
}

-- `none` is `ok == false`, an unterminated quote.
abbrev finish_in : Quote → Lexer → Option (List Token × Bool)
finish_in unquoted l = let l' = flush l in some (l'.toks, l'.redirect)
finish_in single l = none
finish_in double l = none

abbrev pub lex_end : Lexer → Option (List Token × Bool)
lex_end l = finish_in l.mode l

unfoldable pub tokenize_segment : Text → Option (List Token × Bool)
tokenize_segment seg = lex_end (scan lex_step 0 lex_start seg)
