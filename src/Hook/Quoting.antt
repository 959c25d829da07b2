-- ===== src/Hook/Quoting.antt =====
-- internal/hp/policy.go reads what cmd/hindsight/hook.go has quoted: the tokens.
use fasthack.Prelude.{
  ◌≡◌, refl, ◌∙◌, inl, inr, true, false, some, List, [], ◌∷◌, ◌++◌, map, append-nil, append_assoc,
  ◌==◌, if◌then◌else◌, Bool-cases, ==_iff,
}
use fasthack.Text.{Text}
use fasthack.Text.Scan.{scan}
use fasthack.Policy.Syntax.{
  unquoted, single, Token, Lexer, lex_step, lex_unquoted, lex_start, lex_end, tokenize_segment,
}
use fasthack.Hook.{escape_quotes, shell_quote}

-- The quotes of a text, which `tokenizeSegment` reads outside single quotes.
unfoldable pub quotes : Text → Text
quotes [] = []
quotes (c ∷ s) = if c == b'\'' then c ∷ quotes s else quotes s

-- A lexer inside single quotes that has read `t`, of which the quotes outside quotes.
abbrev grown : Lexer → Text → Lexer
grown l t = record l { text = l.text ++ t; bare = l.bare ++ quotes t }

abbrev opened : Lexer → Lexer
opened l = record l { have = true; quoted = true; mode = single }

abbrev closed : Lexer → Lexer
closed l = record l { have = true; quoted = true; mode = unquoted }

-- The loop over an escaped text, its closing quote and what follows.
lex-escape_quotes :
    (s rest : Text) (l : Lexer)
    → scan lex_step 0 (opened l) (escape_quotes s ++ b'\'' ∷ rest)
      ≡ scan lex_step 0 (closed (grown l s)) rest
unfolding escape_quotes quotes scan lex_step lex_unquoted
lex-escape_quotes [] rest l = simp append-nil
lex-escape_quotes (c ∷ s) rest l = elim (Bool-cases (c == b'\'')) [
  | inl q ↦ rw ((==_iff c b'\'').0 q) (
      lex-escape_quotes s rest
        (record l { text = l.text ++ b'\'' ∷ []; bare = l.bare ++ b'\'' ∷ [] })
      ∙ simp append_assoc)
  | inr q ↦ rw q (
      rw (q, scan)
        (lex-escape_quotes s rest (record l { text = l.text ++ c ∷ [] }) ∙ simp append_assoc))
]

pub append_quote : (a rest : Text) → shell_quote a ++ rest ≡ b'\'' ∷ escape_quotes a ++ b'\'' ∷ rest
unfolding shell_quote
append_quote a rest = simp append_assoc

-- From outside quotes, past one quoted text.
pub lex-shell_quote :
    (a rest : Text) (l : Lexer)
    → scan lex_step 0 (record l { mode = unquoted }) (shell_quote a ++ rest)
      ≡ scan lex_step 0 (closed (grown l a)) rest
unfolding scan lex_step lex_unquoted
lex-shell_quote a rest l = rw append_quote (lex-escape_quotes a rest l)

-- Quoted texts, with spaces between them.
unfoldable pub quoted_words : List Text → Text
quoted_words [] = []
quoted_words (a ∷ []) = shell_quote a
quoted_words (a ∷ b ∷ args) = shell_quote a ++ b' ' ∷ quoted_words (b ∷ args)

-- The token of a quoted text.
abbrev pub word : Text → Token
word a = record { text = a; bare = quotes a; quoted = true }

abbrev after_toks : List Token → Lexer
after_toks toks = record lex_start { toks = toks }

lex-quoted_words :
    (toks : List Token) (args : List Text)
    → lex_end (scan lex_step 0 (after_toks toks) (quoted_words args))
      ≡ some (toks ++ map word args, false)
unfolding quoted_words scan lex_step lex_unquoted
lex-quoted_words toks [] = simp append-nil
lex-quoted_words toks (a ∷ []) =
    rw (← append-nil (shell_quote a)) (rw (lex-shell_quote a [] (after_toks toks)) refl)
lex-quoted_words toks (a ∷ b ∷ args) =
    rw (lex-shell_quote a (b' ' ∷ quoted_words (b ∷ args)) (after_toks toks))
      (lex-quoted_words (toks ++ word a ∷ []) (b ∷ args) ∙ simp append_assoc)

-- Quoted texts with spaces between them are read back as one quoted token each, with the texts as
-- they were, and with no redirection.
pub tokenize_segment-quoted_words :
    (args : List Text) → tokenize_segment (quoted_words args) ≡ some (map word args, false)
unfolding tokenize_segment
tokenize_segment-quoted_words args = lex-quoted_words [] args
