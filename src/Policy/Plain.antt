-- ===== src/Policy/Plain.antt =====
-- internal/hp/policy.go: `splitSegments` on text without quotes, escapes and separators.
use fasthack.Prelude.{
  ℕ, ◌≡◌, sym, ap, ◌∙◌, Bool, false, ◌||◌, [], ◌∷◌, ◌++◌, append-nil, append_assoc, arith, ◌==◌,
  All,
}
use fasthack.Text.{Text}
use fasthack.Text.Scan.{scan}
use fasthack.Policy.Syntax.{
  Split, unquoted, split_step, split_unquoted, split_start, split_end, split_segments, first,
}

abbrev pub is_special : ℕ → Bool
is_special c =
    c == b'\\' || c == b'\'' || c == b'"' || c == b'&' || c == b'|' || c == b';' || c == 10

abbrev pub IsPlain : Text → Type 0
IsPlain = All (λ c. is_special c ≡ false)

abbrev written : Split → Text → Split
written s t = record s { buffer = s.buffer ++ t }

plain_step :
    (s : Split) (c : ℕ) (r : Text)
    → is_special c ≡ false
    → split_step (record s { quote = unquoted }) c r
      ≡ (record (written s (c ∷ [])) { quote = unquoted }, 0)
unfolding split_step split_unquoted
plain_step s c r h = ground arith

pub split-IsPlain :
    (w rest : Text) (s : Split)
    → IsPlain w
    → scan split_step 0 (record s { quote = unquoted }) (w ++ rest)
      ≡ scan split_step 0 (record (written s w) { quote = unquoted }) rest
unfolding scan
split-IsPlain [] rest s h = simp append-nil
split-IsPlain (c ∷ w) rest s h =
    rw (plain_step s c (w ++ rest) h.0, scan)
      (split-IsPlain w rest (written s (c ∷ [])) h.1 ∙ simp append_assoc)

pub IsPlain-append : (v w : Text) → IsPlain v → IsPlain w → IsPlain (v ++ w)
IsPlain-append [] w hv hw = hw
IsPlain-append (c ∷ v) w hv hw = (hv.0, IsPlain-append v w hv.1 hw)

-- A plain command is one segment.
pub split_segments-IsPlain :
    (w : Text) → IsPlain w → split_segments w ≡ (record { sep = first; text = w }) ∷ []
unfolding split_segments scan
split_segments-IsPlain w h =
    ap (λ (t : Text). split_end (scan split_step 0 split_start t)) (sym (append-nil w))
    ∙ ap split_end (split-IsPlain w [] split_start h)
