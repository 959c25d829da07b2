-- ===== src/Hook/Segments.antt =====
-- internal/hp/policy.go reads what cmd/hindsight/hook.go has quoted: the segments and the command
-- substitution.
use fasthack.Prelude.{
  ℕ, ◌≡◌, refl, sym, ◌∙◌, ap, inl, inr, true, false, List, [], ◌∷◌, ◌++◌, append-nil, append_assoc,
  ◌==◌, Bool-cases, ==_iff, arith,
}
use fasthack.Text.{Text, codes}
use fasthack.Text.Scan.{scan}
use fasthack.Policy.Syntax.{
  unquoted, single, first, Split, split_step, split_single, split_unquoted, split_start, split_end,
  split_segments, Quoting, no_quoting, substitution_step, has_command_substitution,
}
use fasthack.Hook.{escape_quotes, shell_quote}
use fasthack.Hook.Quoting.{append_quote, quoted_words}

-- A splitter that has written `t` since.
abbrev written : Split → Text → Split
written s t = record s { buffer = s.buffer ++ t }

split-escape_quotes :
    (a rest : Text) (s : Split)
    → scan split_step 0 (record s { quote = single }) (escape_quotes a ++ b'\'' ∷ rest)
      ≡ scan split_step 0
          (record (written s (escape_quotes a ++ b'\'' ∷ [])) { quote = unquoted })
          rest
unfolding escape_quotes scan split_step split_single split_unquoted
split-escape_quotes [] rest s = refl
split-escape_quotes (c ∷ a) rest s = elim (Bool-cases (c == b'\'')) [
  | inl q ↦ rw ((==_iff c b'\'').0 q) (
      split-escape_quotes a rest
        (written (written (written s (b'\'' ∷ [])) (b'\\' ∷ b'\'' ∷ [])) (b'\'' ∷ []))
      ∙ simp append_assoc)
  | inr q ↦
      rw q (rw (q, scan) (split-escape_quotes a rest (written s (c ∷ [])) ∙ simp append_assoc))
]

pub split-shell_quote :
    (a rest : Text) (s : Split)
    → scan split_step 0 (record s { quote = unquoted }) (shell_quote a ++ rest)
      ≡ scan split_step 0 (record (written s (shell_quote a)) { quote = unquoted }) rest
unfolding scan split_step split_unquoted shell_quote
split-shell_quote a rest s =
    rw append_assoc (split-escape_quotes a rest (written s (b'\'' ∷ [])) ∙ simp append_assoc)

abbrev inside : Quoting
inside = record no_quoting { in_single = true }

inside_step : (c : ℕ) (r : Text) → (c == b'\'') ≡ false → substitution_step inside c r ≡ (inside, 0)
unfolding substitution_step
inside_step c r q = ground arith

escaped_round :
    (t : Text)
    → scan substitution_step 0 inside (codes "'\\''" ++ t) ≡ scan substitution_step 0 inside t
unfolding scan substitution_step
escaped_round t = refl

substitution-escape_quotes :
    (a rest : Text)
    → scan substitution_step 0 inside (escape_quotes a ++ b'\'' ∷ rest)
      ≡ scan substitution_step 0 no_quoting rest
unfolding escape_quotes scan
substitution-escape_quotes [] rest = unfold substitution_step in refl
substitution-escape_quotes (c ∷ a) rest = elim (Bool-cases (c == b'\'')) [
  | inl q ↦
      rw ((==_iff c b'\'').0 q)
        (escaped_round (escape_quotes a ++ b'\'' ∷ rest) ∙ substitution-escape_quotes a rest)
  | inr q ↦ rw q (
      rw (inside_step c (escape_quotes a ++ b'\'' ∷ rest) q, scan)
        (substitution-escape_quotes a rest))
]

pub substitution-shell_quote :
    (a rest : Text)
    → scan substitution_step 0 no_quoting (shell_quote a ++ rest)
      ≡ scan substitution_step 0 no_quoting rest
substitution-shell_quote a rest = rw append_quote (open_quote _ ∙ substitution-escape_quotes a rest)
  where
    open_quote :
        (t : Text)
        → scan substitution_step 0 no_quoting (b'\'' ∷ t) ≡ scan substitution_step 0 inside t
    open_quote t = unfold scan substitution_step in refl

split-quoted_words :
    (args : List Text) (s : Split)
    → scan split_step 0 (record s { quote = unquoted }) (quoted_words args)
      ≡ record (written s (quoted_words args)) { quote = unquoted }
unfolding quoted_words scan split_step split_unquoted
split-quoted_words [] s = simp append-nil
split-quoted_words (a ∷ []) s =
    ap (scan split_step 0 (record s { quote = unquoted })) (sym (append-nil (shell_quote a)))
    ∙ split-shell_quote a [] s
split-quoted_words (a ∷ b ∷ args) s =
    split-shell_quote a (b' ' ∷ quoted_words (b ∷ args)) s
    ∙ split-quoted_words (b ∷ args) (written (written s (shell_quote a)) (b' ' ∷ []))
    ∙ simp append_assoc

none_found :
    (args : List Text) → scan substitution_step 0 no_quoting (quoted_words args) ≡ no_quoting
unfolding quoted_words scan substitution_step
none_found [] = refl
none_found (a ∷ []) =
    ap (scan substitution_step 0 no_quoting) (sym (append-nil (shell_quote a)))
    ∙ substitution-shell_quote a []
none_found (a ∷ b ∷ args) =
    substitution-shell_quote a (b' ' ∷ quoted_words (b ∷ args)) ∙ none_found (b ∷ args)

-- Quoted texts with spaces between them are one segment, with no command substitution.
pub split_segments-quoted_words :
    (args : List Text)
    → (split_segments (quoted_words args) ≡ (record { sep = first; text = quoted_words args }) ∷ [])
      × (has_command_substitution (quoted_words args) ≡ false)
unfolding split_segments has_command_substitution
split_segments-quoted_words args = (
  ap split_end (split-quoted_words args split_start),
  ap (λ (q : Quoting). q.found) (none_found args),
)
