-- ===== src/Sort.antt =====
-- sort.Slice and sort.SliceStable: insertion into a sorted list, equal elements in their old order.
use fasthack.Prelude.{
  ◌+◌, ◌≡◌, inl, inr, Bool, List, [], ◌∷◌, arith, if◌then◌else◌, Bool-cases, length, All,
}

module _ {ℓ} {A : Type ℓ} where
  unfoldable pub insert_by : (A → A → Bool) → A → List A → List A
  insert_by less x [] = x ∷ []
  insert_by less x (y ∷ ys) =
      let later = y ∷ insert_by less x ys in if less y x then later else x ∷ y ∷ ys

  unfoldable pub sort_by : (A → A → Bool) → List A → List A
  sort_by less [] = []
  sort_by less (x ∷ xs) = insert_by less x (sort_by less xs)

  pub length-insert_by :
      (less : A → A → Bool) (x : A) (ys : List A) → length (insert_by less x ys) ≡ length ys + 1
  unfolding insert_by
  length-insert_by less x [] = omega arith
  length-insert_by less x (y ∷ ys) = ground (arith, length-insert_by less x ys)

  pub length-sort_by : (less : A → A → Bool) (xs : List A) → length (sort_by less xs) ≡ length xs
  unfolding sort_by
  length-sort_by less [] = omega arith
  length-sort_by less (x ∷ xs) =
      omega (arith, length-insert_by less x (sort_by less xs), length-sort_by less xs)

module _ {ℓ κ} {A : Type ℓ} (P : A → Type κ) (less : A → A → Bool) where
  All-insert_by : (x : A) (ys : List A) → P x → All P ys → All P (insert_by less x ys)
  unfolding insert_by
  All-insert_by x [] p h = (p, tt)
  All-insert_by x (y ∷ ys) p h = elim (Bool-cases (less y x)) [
    | inl e ↦ rw e (h.0, All-insert_by x ys p h.1)
    | inr e ↦ rw e (p, h)
  ]

  pub All-sort_by : (xs : List A) → All P xs → All P (sort_by less xs)
  unfolding sort_by
  All-sort_by [] h = tt
  All-sort_by (x ∷ xs) h = All-insert_by x (sort_by less xs) h.0 (All-sort_by xs h.1)
