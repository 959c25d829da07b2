-- ===== src/Bundle/Named.antt =====
-- internal/hp/bundle.go: the names of the blobs in an archive, which are hexadecimal digests.
use fasthack.Prelude.{
  ℕ, ◌≤◌, ◌≡◌, ◌⊎◌, refl, false, [], ◌∷◌, ◌++◌, append-nil, append_assoc, arith, ◌==◌, All,
}
use fasthack.Text.{Text, text, text_eq, is_empty}
use fasthack.Text.PathName.{
  split_parts, join_parts, clean_part, clean_parts, rev_onto, is_abs, clean, dot, dot_dot,
}

-- A digit, in lower case.
abbrev pub IsHexDigit : ℕ → Type 0
IsHexDigit c = ((48 ≤ c) × (c ≤ 57)) ⊎ ((97 ≤ c) × (c ≤ 102))

pub record IsHex (h : Text) : Type 0 where
  pub not_empty : is_empty h ≡ false
  pub digits : All IsHexDigit h

digit-eq_slash : (c : ℕ) → IsHexDigit c → (c == 47) ≡ false
digit-eq_slash c d = ground arith

digit-eq_dot : (c : ℕ) → IsHexDigit c → (c == 46) ≡ false
digit-eq_dot c d = ground arith

split_parts-digits : (h part : Text) → All IsHexDigit h → split_parts part h ≡ (part ++ h) ∷ []
unfolding split_parts
split_parts-digits [] part d = rw append-nil refl
split_parts-digits (c ∷ h) part (d, ds) =
    rw (digit-eq_slash c d, split_parts-digits h (part ++ c ∷ []) ds, append_assoc) refl

text_eq-dot : (h : Text) → All IsHexDigit h → text_eq h dot ≡ false
unfolding text_eq
text_eq-dot [] ds = refl
text_eq-dot (c ∷ h) (d, ds) = rw (digit-eq_dot c d) refl

text_eq-dot_dot : (h : Text) → All IsHexDigit h → text_eq h dot_dot ≡ false
unfolding text_eq
text_eq-dot_dot [] ds = refl
text_eq-dot_dot (c ∷ h) (d, ds) = rw (digit-eq_dot c d) refl

pub clean-blob_name : (h : Text) → IsHex h → clean (text "blobs/" ++ h) ≡ text "blobs/" ++ h
unfolding clean is_abs split_parts clean_parts clean_part rev_onto join_parts text is_empty text_eq
clean-blob_name h i =
    rw
      (
        split_parts-digits h [] i.digits,
        i.not_empty,
        text_eq-dot h i.digits,
        text_eq-dot_dot h i.digits,
      )
      refl
