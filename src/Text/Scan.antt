-- ===== src/Text/Scan.antt =====
-- The loop `for i := 0; i < len(rs); i++` over the runes of a text, whose body may move `i` on.
use fasthack.Prelude.{ℕ, zero, suc, ◌≡◌, refl, [], ◌∷◌, drop}
use fasthack.Text.{Text}

-- The body gets its state, the rune at `i` and the runes behind it, and returns the new state with
-- how far it moved `i` beyond the loop's own step.
module _ {ℓ} {S : Type ℓ} (body : S → ℕ → Text → S × ℕ) where
  unfoldable pub scan : ℕ → S → Text → S
  scan skip s [] = s
  scan (suc skip) s (c ∷ r) = scan skip s r
  scan zero s (c ∷ r) = let (s', skip) = body s c r in scan skip s' r

module _ {ℓ κ} {S : Type ℓ} (body : S → ℕ → Text → S × ℕ) (P : S → Type κ) where
  pub scan_inv :
      ((s : S) (c : ℕ) (r : Text) → P s → P (body s c r).0)
      → (skip : ℕ) (s : S) (t : Text) → P s
      → P (scan body skip s t)
  unfolding scan
  scan_inv keep zero s [] p = p
  scan_inv keep (suc skip) s [] p = p
  scan_inv keep (suc skip) s (c ∷ r) p = scan_inv keep skip s r p
  scan_inv keep zero s (c ∷ r) p = scan_inv keep (body s c r).1 (body s c r).0 r (keep s c r p)

module _ {ℓ} {S : Type ℓ} (body : S → ℕ → Text → S × ℕ) where
  -- Skipping is dropping.
  pub scan-skip : (skip : ℕ) (s : S) (t : Text) → scan body skip s t ≡ scan body 0 s (drop skip t)
  unfolding scan
  scan-skip zero s t = refl
  scan-skip (suc skip) s [] = refl
  scan-skip (suc skip) s (c ∷ r) = scan-skip skip s r
