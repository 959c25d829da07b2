-- ===== src/Dict/Laws.antt =====
-- What a map holds after a write and after a deletion.
use fasthack.Prelude.{
  ◌≡◌, refl, inl, inr, none, some, [], ◌∷◌, true, false, arith, if◌then◌else◌, Bool-cases,
}
use fasthack.Text.{Text, text_eq}
use fasthack.Text.Laws.{text_eq_sound}
use fasthack.Dict.{Dict, get, put, remove}

-- A key that differs from `k` differs from all keys equal to `k`.
apart : (i k j : Text) → text_eq i k ≡ false → text_eq k j ≡ true → text_eq i j ≡ false
apart i k j d e = rw (text_eq_sound k j e) at d

module _ {ℓ} {V : Type ℓ} where
  pub get-put :
      (m : Dict V) (k j : Text) (v : V)
      → get (put m k v) j ≡ (if text_eq k j then some v else get m j)
  unfolding get put
  get-put [] k j v = refl
  get-put ((i, w) ∷ m) k j v = elim (Bool-cases (text_eq i k)) [
    | inl e ↦ rw (e, text_eq_sound i k e) (ground arith)
    | inr e ↦ rw e (ground (arith, get-put m k j v, apart i k j e))
  ]

  pub get-remove :
      (m : Dict V) (k j : Text) → get (remove m k) j ≡ (if text_eq k j then none else get m j)
  unfolding get remove
  get-remove [] k j = ground arith
  get-remove ((i, w) ∷ m) k j = elim (Bool-cases (text_eq i k)) [
    | inl e ↦ rw (e, text_eq_sound i k e) (ground (arith, get-remove m k j))
    | inr e ↦ rw e (ground (arith, get-remove m k j, apart i k j e))
  ]
