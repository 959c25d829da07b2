-- ===== src/Policy/Writers.antt =====
-- internal/hp/policy.go: the heads that write or print metadata.
use fasthack.Prelude.{
  ℕ, zero, suc, ◌≡◌, refl, inl, inr, true, false, some, List, [], ◌∷◌, ◌++◌, String, arith,
  Bool-cases,
}
use fasthack.Text.{Text, text, text_eq, in_set}
use fasthack.Text.Laws.{text_eq_outside}
use fasthack.Policy.Tables.{mutation_heads, metadata_heads}
use fasthack.Policy.Syntax.{Token}
use fasthack.Policy.Heads.{passthrough, record_only, serve, classify_early, classify_head}

-- The heads with a case of their own.
abbrev special : List String
special = "git" ∷ "sed" ∷ "black" ∷ "go" ∷ "cargo" ∷ "npm" ∷ []

abbrev OutsideAll : List String → List String → Type 0
OutsideAll set [] = Unit
OutsideAll set (s ∷ ss) = (in_set set (text s) ≡ false) × OutsideAll set ss

abbrev NoneOf : Text → List String → Type 0
NoneOf t [] = Unit
NoneOf t (s ∷ ss) = (text_eq t (text s) ≡ false) × NoneOf t ss

none_of :
    (set : List String) (t : Text) (ss : List String)
    → in_set set t ≡ true
    → OutsideAll set ss
    → NoneOf t ss
none_of set t [] h out = tt
none_of set t (s ∷ ss) h out = (text_eq_outside set t s h out.0, none_of set t ss h out.1)

mutation_special : OutsideAll mutation_heads special
unfolding in_set mutation_heads text text_eq
mutation_special = (refl, (refl, (refl, (refl, (refl, (refl, tt))))))

metadata_special : OutsideAll metadata_heads special
unfolding in_set metadata_heads text text_eq
metadata_special = (refl, (refl, (refl, (refl, (refl, (refl, tt))))))

mutation-early :
    (head : Text) (toks : List Token)
    → in_set mutation_heads head ≡ true
    → classify_early head toks ≡ some (record_only, text "mutation: " ++ head)
unfolding classify_early
mutation-early head toks h = ground (arith, none_of mutation_heads head special h mutation_special)

metadata-early :
    (head : Text) (toks : List Token)
    → in_set mutation_heads head ≡ false
    → in_set metadata_heads head ≡ true
    → classify_early head toks
      ≡ some (passthrough, text "prints file metadata the tree hash does not cover: " ++ head)
unfolding classify_early
metadata-early head toks m h =
    ground (arith, none_of metadata_heads head special h metadata_special)

pub head_not_mutation :
    (fuel : ℕ) (head reason : Text) (toks : List Token)
    → classify_head fuel head toks ≡ some (serve, reason)
    → in_set mutation_heads head ≡ false
unfolding classify_head
head_not_mutation zero head reason toks r = cc r
head_not_mutation (suc fuel) head reason toks r = elim (Bool-cases (in_set mutation_heads head)) [
  | inr m ↦ m
  | inl m ↦ absurd (cc (rw (mutation-early head toks m, classify_head) at r))
]

pub head_not_metadata :
    (fuel : ℕ) (head reason : Text) (toks : List Token)
    → in_set mutation_heads head ≡ false
    → classify_head fuel head toks ≡ some (serve, reason)
    → in_set metadata_heads head ≡ false
unfolding classify_head
head_not_metadata zero head reason toks m r = cc r
head_not_metadata (suc fuel) head reason toks m r = elim (Bool-cases (in_set metadata_heads head)) [
  | inr n ↦ n
  | inl n ↦ absurd (cc (rw (metadata-early head toks m n, classify_head) at r))
]
