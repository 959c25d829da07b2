-- ===== src/Store/Evict.antt =====
-- internal/hp/store.go: an eviction and what is left behind it.
use fasthack.Prelude.{
  ◌≡◌, ◌∙◌, ◌⊎◌, refl, sym, inl, inr, true, false, none, some, List, [], ◌∷◌, if◌then◌else◌,
  Bool-cases, Option-cases, All,
}
use fasthack.Text.{Text, text_eq}
use fasthack.Text.Laws.{text_eq_sound, text_eq_complete}
use fasthack.Dict.{get}
use fasthack.Dict.Laws.{get-remove}
use fasthack.Record.{Record}
use fasthack.Store.{Store, cand_key_of, list_at, without_key, lookup, evict}
use fasthack.Store.Index.{
  IsCandidate, IsIndexed, list_at-write_back, drop_servable-none, drop_servable-some,
}

-- The key is gone and what other keys serve is untouched.
pub lookup-evict :
    (s : Store) (key j : Text)
    → lookup (evict s key) j ≡ (if text_eq key j then none else lookup s j)
unfolding lookup evict
lookup-evict s key j = elim (Option-cases (get s.servable key)) [
  | inl n ↦ rw (drop_servable-none s key n) (missing (Bool-cases (text_eq key j)) n)
  | inr (r, n) ↦ rw (drop_servable-some s key r n) (get-remove s.servable key j)
]
  where
    missing :
        (text_eq key j ≡ true) ⊎ (text_eq key j ≡ false)
        → get s.servable key ≡ none
        → get s.servable j ≡ (if text_eq key j then none else get s.servable j)
    missing (inl e) n = rw (e, sym (text_eq_sound key j e)) n
    missing (inr e) n = rw e refl

-- The candidate is none with this key.
abbrev pub HasOtherKey : Text → Record → Type 0
HasOtherKey key c = text_eq c.key key ≡ false

without_key-HasOtherKey :
    (key : Text) (cs : List Record) → All (HasOtherKey key) (without_key key cs)
unfolding without_key
without_key-HasOtherKey key [] = tt
without_key-HasOtherKey key (c ∷ cs) = elim (Bool-cases (text_eq c.key key)) [
  | inl e ↦ rw e (without_key-HasOtherKey key cs)
  | inr e ↦ rw e (e, without_key-HasOtherKey key cs)
]

-- What is recorded with this key stands under the candidate key of `r`.
abbrev pub StandsWith : Record → Text → Record → Type 0
StandsWith r key c = text_eq c.key key ≡ true → cand_key_of c ≡ cand_key_of r

elsewhere-HasOtherKey :
    (r : Record) (key ck : Text) (cs : List Record)
    → text_eq (cand_key_of r) ck ≡ false
    → All (IsCandidate ck) cs
    → All (StandsWith r key) cs
    → All (HasOtherKey key) cs
elsewhere-HasOtherKey r key ck [] e i h = tt
elsewhere-HasOtherKey r key ck (c ∷ cs) e i h = elim (Bool-cases (text_eq c.key key)) [
  | inl k ↦
      let here = text_eq_complete (cand_key_of r) ck (sym (h.0 k) ∙ i.0.place) in
      absurd (cc (here, e))
  | inr k ↦ (k, elsewhere-HasOtherKey r key ck cs e i.1 h.1)
]

-- After the eviction of a record that the store serves, no list of candidates holds a record with
-- its key, in a store that is indexed and whose records with that key have one candidate key.
pub evict-HasOtherKey :
    (s : Store) (key : Text) (r : Record)
    → IsIndexed s
    → lookup s key ≡ some r
    → ((ck : Text) → All (StandsWith r key) (list_at s.candidates ck))
    → (ck : Text) → All (HasOtherKey key) (list_at (evict s key).candidates ck)
unfolding lookup evict
evict-HasOtherKey s key r i n h ck =
    rw (drop_servable-some s key r n, list_at-write_back)
      (left (Bool-cases (text_eq (cand_key_of r) ck)))
  where
    left :
        (text_eq (cand_key_of r) ck ≡ true) ⊎ (text_eq (cand_key_of r) ck ≡ false)
        → All (HasOtherKey key) (
            if text_eq (cand_key_of r) ck
            then without_key key (list_at s.candidates (cand_key_of r))
            else list_at s.candidates ck)
    left (inl e) = rw e (without_key-HasOtherKey key (list_at s.candidates (cand_key_of r)))
    left (inr e) =
        rw e (elsewhere-HasOtherKey r key ck (list_at s.candidates ck) e (i.placed ck) (h ck))
