-- ===== src/Key/LineBreak.antt =====
-- internal/hp/key.go and internal/hp/policy.go: a line break between two commands.
use fasthack.Prelude.{◌≡◌, refl, sym, ◌∙◌, ap, [], ◌∷◌, ◌++◌, append-nil}
use fasthack.Text.{Text, is_space}
use fasthack.Text.Scan.{scan}
use fasthack.Policy.Syntax.{
  first, semicolon, Split, split_step, split_unquoted, split_start, split_end, split_segments,
}
use fasthack.Policy.Plain.{IsPlain, IsPlain-append, split-IsPlain, split_segments-IsPlain}
use fasthack.Key.{State, normalize_command, key}
use fasthack.Key.Normal.{normalize_command-space}

split-line_break :
    (a b : Text)
    → IsPlain a
    → IsPlain b
    → split_segments (a ++ 10 ∷ b)
      ≡ (record { sep = first; text = a }) ∷ (record { sep = semicolon; text = b }) ∷ []
unfolding split_segments scan split_step split_unquoted
split-line_break a b ha hb =
    let behind : Split = record split_start {
      segs = (record { sep = first; text = a }) ∷ [];
      sep = semicolon;
    } in
    ap split_end (
      split-IsPlain a (10 ∷ b) split_start ha
      ∙ ap (scan split_step 0 behind) (sym (append-nil b))
      ∙ split-IsPlain b [] behind hb)

-- Two commands on two lines have the key of the one command that is both on one line, although the
-- first is two segments and the second is one.
pub key-line_break :
    (digest : Text → Text) (st : State) (cwd a b : Text)
    → IsPlain a
    → IsPlain b
    → (key digest st cwd (normalize_command (a ++ 10 ∷ b))
        ≡ key digest st cwd (normalize_command (a ++ b' ' ∷ b)))
      × (split_segments (a ++ 10 ∷ b)
          ≡ (record { sep = first; text = a }) ∷ (record { sep = semicolon; text = b }) ∷ [])
      × (split_segments (a ++ b' ' ∷ b) ≡ (record { sep = first; text = a ++ b' ' ∷ b }) ∷ [])
key-line_break digest st cwd a b ha hb = (
  ap (key digest st cwd)
      (normalize_command-space a b 10 b' ' (unfold is_space in refl) (unfold is_space in refl)),
  split-line_break a b ha hb,
  split_segments-IsPlain (a ++ b' ' ∷ b) (IsPlain-append a (b' ' ∷ b) ha (refl, hb)),
)
