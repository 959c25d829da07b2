-- ===== src/Dict.antt =====
-- Go's maps with string keys, as association lists in the order of their insertion.
pub mod Laws
pub mod Counts
use fasthack.Prelude.{Option, none, some, List, [], ◌∷◌, if◌then◌else◌}
use fasthack.Text.{Text, text_eq}

abbrev pub Dict {ℓ} : Type ℓ → Type ℓ
Dict V = List (Text × V)

module _ {ℓ} {V : Type ℓ} where
  -- v, ok := m[k]
  unfoldable pub get : Dict V → Text → Option V
  get [] k = none
  get ((j, v) ∷ m) k = if text_eq j k then some v else get m k

  -- m[k] = v
  unfoldable pub put : Dict V → Text → V → Dict V
  put [] k v = (k, v) ∷ []
  put ((j, w) ∷ m) k v = let m' = put m k v in if text_eq j k then (j, v) ∷ m else (j, w) ∷ m'

  -- delete(m, k)
  unfoldable pub remove : Dict V → Text → Dict V
  remove [] k = []
  remove ((j, w) ∷ m) k = let m' = remove m k in if text_eq j k then m' else (j, w) ∷ m'

  -- The values, in no order that Go promises.
  unfoldable pub values : Dict V → List V
  values [] = []
  values ((j, v) ∷ m) = v ∷ values m
