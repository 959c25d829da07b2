-- ===== src/Text/Laws.antt =====
-- Laws of texts: equality, sets, emptiness.
use fasthack.Prelude.{
  ◌≡◌, refl, sym, inl, inr, Bool, true, false, not, ◌&&◌, and-eq-true, List, [], ◌∷◌, ◌++◌, String,
  arith, Any, Bool-cases,
}
use fasthack.Text.{Text, text, text_eq, in_set, is_empty, has_prefix}

pub text_eq_sound : (s t : Text) → text_eq s t ≡ true → s ≡ t
unfolding text_eq
text_eq_sound [] [] h = refl
text_eq_sound [] (d ∷ t) h = ground arith
text_eq_sound (c ∷ s) [] h = ground arith
text_eq_sound (c ∷ s) (d ∷ t) h = ground (arith, text_eq_sound s t)

pub text_eq_refl : (s : Text) → text_eq s s ≡ true
unfolding text_eq
text_eq_refl [] = refl
text_eq_refl (c ∷ s) = ground (arith, text_eq_refl s)

-- A member of a set is one of its texts.
pub in_set-Any : (set : List String) (t : Text) → in_set set t ≡ true → Any (λ s. t ≡ text s) set
unfolding in_set
in_set-Any [] t h = cc h
in_set-Any (s ∷ set) t h = elim (Bool-cases (text_eq (text s) t)) [
  | inl same ↦ inl (sym (text_eq_sound (text s) t same))
  | inr differs ↦ inr (in_set-Any set t (rw differs at h))
]

pub is_empty-append : (s t : Text) → is_empty (s ++ t) ≡ (is_empty s && is_empty t)
unfolding is_empty
is_empty-append [] t = refl
is_empty-append (c ∷ s) t = refl

pub eq-nil : (s : Text) → is_empty s ≡ true → s ≡ []
unfolding is_empty
eq-nil [] h = refl
eq-nil (c ∷ s) h = cc h

unfoldable pub none_empty : List String → Bool
none_empty [] = true
none_empty (s ∷ set) = not (is_empty (text s)) && none_empty set

-- The empty text is in no set of texts that are not empty.
pub in_set-not_empty :
    (set : List String) (t : Text)
    → none_empty set ≡ true
    → in_set set t ≡ true
    → is_empty t ≡ false
unfolding none_empty in_set
in_set-not_empty [] t n h = cc h
in_set-not_empty (s ∷ set) t n h = elim (Bool-cases (text_eq (text s) t)) [
  | inl same ↦ rw (← text_eq_sound (text s) t same) (ground arith)
  | inr differs ↦ in_set-not_empty set t (and-eq-true _ _ n).1 (rw differs at h)
]

-- A member of a set is none of the texts outside.
pub text_eq_outside :
    (set : List String) (t : Text) (s : String)
    → in_set set t ≡ true
    → in_set set (text s) ≡ false
    → text_eq t (text s) ≡ false
text_eq_outside set t s h out = elim (Bool-cases (text_eq t (text s))) [
  | inr differs ↦ differs
  | inl same ↦ absurd (cc (h, out, text_eq_sound t (text s) same))
]

pub text_eq_complete : (s t : Text) → s ≡ t → text_eq s t ≡ true
text_eq_complete s t e = rw (← e) (text_eq_refl s)

-- The text starts with the prefix exactly if something completes it.
pub has_prefix-rest : (p s : Text) → has_prefix p s ≡ true → (r : Text) × (s ≡ p ++ r)
unfolding has_prefix
has_prefix-rest [] s h = (s, refl)
has_prefix-rest (c ∷ p) [] h = cc h
has_prefix-rest (c ∷ p) (d ∷ s) h =
    let (r, e) = has_prefix-rest p s (ground arith) in
    let same : c ≡ d = ground arith in (r, cc (same, e))

pub has_prefix-append : (p r : Text) → has_prefix p (p ++ r) ≡ true
unfolding has_prefix
has_prefix-append [] r = refl
has_prefix-append (c ∷ p) r = ground (arith, has_prefix-append p r)

-- A text that is one of two different texts is not the other.
pub text_eq_apart : (d x y : Text) → text_eq x y ≡ false → text_eq d x ≡ true → text_eq d y ≡ false
text_eq_apart d x y e h = rw (text_eq_sound d x h) e
