-- ===== src/Dict/Counts.antt =====
-- How many keys a map holds: the keys are distinct, and a map of some of the keys is no longer.
use fasthack.Prelude.{
  ℕ, suc, ◌+◌, ◌≤◌, ◌<◌, ◌≡◌, ◌≢◌, refl, ap, ◌∙◌, inl, inr, false, Option, none, some, [], ◌∷◌,
  arith, if◌then◌else◌, Bool-cases, length,
}
use fasthack.Text.{Text, text_eq}
use fasthack.Text.Laws.{text_eq_sound, text_eq_refl}
use fasthack.Dict.{Dict, get, put, remove}
use fasthack.Dict.Laws.{get-put, get-remove}

text_eq_swap : (s t : Text) → text_eq s t ≡ false → text_eq t s ≡ false
text_eq_swap s t h = elim (Bool-cases (text_eq t s)) [
  | inl e ↦ absurd (cc (text_eq_refl s, rw (text_eq_sound t s e) at h))
  | inr e ↦ e
]

-- One key more, unless it has a value already.
abbrev pub one_more {ℓ} : {V : Type ℓ} → Option V → ℕ → ℕ
one_more none n = n + 1
one_more (some v) n = n

one_more-suc {ℓ} : {V : Type ℓ} (o : Option V) (n : ℕ) → suc (one_more o n) ≡ one_more o (suc n)
one_more-suc none n = omega arith
one_more-suc (some v) n = refl

module _ {ℓ} {V : Type ℓ} where
  -- No key stands twice.
  abbrev pub IsDistinct : Dict V → Type ℓ
  IsDistinct [] = Unit
  IsDistinct ((k, v) ∷ m) = (get m k ≡ none) × IsDistinct m

  pub put-IsDistinct : (m : Dict V) (k : Text) (v : V) → IsDistinct m → IsDistinct (put m k v)
  unfolding put get
  put-IsDistinct [] k v d = (refl, tt)
  put-IsDistinct ((j, w) ∷ m) k v d = elim (Bool-cases (text_eq j k)) [
    | inl e ↦ rw e d
    | inr e ↦ rw e (rw (get-put, text_eq_swap j k e) d.0, put-IsDistinct m k v d.1)
  ]

  pub length-put :
      (m : Dict V) (k : Text) (v : V) → length (put m k v) ≡ one_more (get m k) (length m)
  unfolding put get
  length-put [] k v = omega arith
  length-put ((j, w) ∷ m) k v = elim (Bool-cases (text_eq j k)) [
    | inl e ↦ rw e refl
    | inr e ↦ rw e (ap suc (length-put m k v) ∙ one_more-suc (get m k) (length m))
  ]

  length-remove : (m : Dict V) (k : Text) → length (remove m k) ≤ length m
  unfolding remove
  length-remove [] k = omega arith
  length-remove ((j, w) ∷ m) k = ground (arith, length-remove m k)

  length-remove_lt : (m : Dict V) (k : Text) → get m k ≢ none → length (remove m k) < length m
  unfolding remove get
  length-remove_lt [] k h = absurd (h refl)
  length-remove_lt ((j, w) ∷ m) k h = elim (Bool-cases (text_eq j k)) [
    | inl e ↦ rw e (omega (arith, length-remove m k))
    | inr e ↦ rw e (omega (arith, length-remove_lt m k (rw e at h)))
  ]

-- Distinct keys that all stand in a second map are at most as many as its entries.
pub length-within {ℓ κ} :
    {V : Type ℓ} {W : Type κ} (a : Dict V) (b : Dict W)
    → IsDistinct a
    → ((k : Text) → get a k ≢ none → get b k ≢ none)
    → length a ≤ length b
unfolding get
length-within [] b d h = omega arith
length-within ((k, v) ∷ a) b d h = omega (
  arith,
  length-remove_lt b k (h k (rw (text_eq_refl k) (λ e. cc e))),
  length-within a (remove b k) d.1 (λ j g. rw get-remove (rest j g)),
)
  where
    rest : (j : Text) → get a j ≢ none → (if text_eq k j then none else get b j) ≢ none
    rest j g = elim (Bool-cases (text_eq k j)) [
      | inl e ↦ absurd (g (rw (← text_eq_sound k j e) d.0))
      | inr e ↦ rw e (h j (rw e g))
    ]
