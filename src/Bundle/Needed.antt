-- ===== src/Bundle/Needed.antt =====
-- internal/hp/bundle.go: the blobs that PackCache packs with the records.
use fasthack.Prelude.{
  ℕ, ◌+◌, ◌≡◌, ◌⊎◌, inl, inr, refl, subst, Bool, true, false, not, ◌&&◌, Option, none, some, List,
  [], ◌∷◌, ◌++◌, All, Any, if◌then◌else◌, Bool-cases,
}
use fasthack.Text.{Text, text_eq, is_empty}
use fasthack.Text.Laws.{text_eq_sound}
use fasthack.Dict.{Dict, get, put}
use fasthack.Record.{Record}
use fasthack.Hook.Flow.{hash_of}
use fasthack.Bundle.{BundleStats, Codec, Entry}
use fasthack.Bundle.Pack.{need, kept, tar_file, add_blob, pack_blobs}
use fasthack.Bundle.Addressed.{HasDigest, IsAddressed}

-- The records that go into a bundle.
unfoldable pub kept_records : Bool → List Record → List Record
kept_records servable_only [] = []
kept_records servable_only (r ∷ rs) =
    let rest = kept_records servable_only rs in
    if servable_only && not r.servable then rest else r ∷ rest

-- A key of the map.
abbrev pub HasKey : Dict Bool → Text → Type 0
HasKey d id = Any (λ q. q.0 ≡ id) d

-- There is no blob of that name, or it is asked for.
abbrev pub IsNeeded : Dict Bool → Text → Type 0
IsNeeded d id = (is_empty id ≡ true) ⊎ HasKey d id

put-HasKey : (d : Dict Bool) (id : Text) (v : Bool) → HasKey (put d id v) id
unfolding put
put-HasKey [] id v = inl refl
put-HasKey ((j, w) ∷ d) id v = elim (Bool-cases (text_eq j id)) [
  | inl e ↦ rw e (inl (text_eq_sound j id e))
  | inr e ↦ rw e (inr (put-HasKey d id v))
]

put-HasKey_stays : (d : Dict Bool) (k id : Text) (v : Bool) → HasKey d id → HasKey (put d k v) id
unfolding put
put-HasKey_stays [] k id v h = absurd h
put-HasKey_stays ((j, w) ∷ d) k id v (inl f) = elim (Bool-cases (text_eq j k)) [
  | inl e ↦ rw e (inl f)
  | inr e ↦ rw e (inl f)
]
put-HasKey_stays ((j, w) ∷ d) k id v (inr f) = elim (Bool-cases (text_eq j k)) [
  | inl e ↦ rw e (inr f)
  | inr e ↦ rw e (inr (put-HasKey_stays d k id v f))
]

need-IsNeeded : (b : Text) (d : Dict Bool) → IsNeeded (need b d) b
unfolding need
need-IsNeeded b d = elim (Bool-cases (is_empty b)) [
  | inl e ↦ inl e
  | inr e ↦ rw e (inr (put-HasKey d b true))
]

need_stays : (b id : Text) (d : Dict Bool) → IsNeeded d id → IsNeeded (need b d) id
unfolding need
need_stays b id d (inl e) = inl e
need_stays b id d (inr h) = elim (Bool-cases (is_empty b)) [
  | inl e ↦ rw e (inr h)
  | inr e ↦ rw e (inr (put-HasKey_stays d b id true h))
]

-- Both outputs of a record are asked for.
abbrev pub AreNeeded : Dict Bool → Record → Type 0
AreNeeded d r = IsNeeded d r.stdout_blob × IsNeeded d r.stderr_blob

-- A step over a record that is kept or skipped.
abbrev step : Bool → Record → List Record × Dict Bool × ℕ → List Record × Dict Bool × ℕ
step b r (keep, needed, skipped) =
    if b
    then (keep, needed, skipped + 1)
    else (keep ++ r ∷ [], need r.stderr_blob (need r.stdout_blob needed), skipped)

step_stays :
    (b : Bool) (r : Record) (s : List Record × Dict Bool × ℕ) (id : Text)
    → IsNeeded s.1 id
    → IsNeeded (step b r s).1 id
step_stays true r (keep, needed, skipped) id h = h
step_stays false r (keep, needed, skipped) id h =
    need_stays r.stderr_blob id (need r.stdout_blob needed) (need_stays r.stdout_blob id needed h)

kept_stays :
    (so : Bool) (rs : List Record) (s : List Record × Dict Bool × ℕ) (id : Text)
    → IsNeeded s.1 id
    → IsNeeded (kept so rs s).1 id
unfolding kept
kept_stays so [] s id h = h
kept_stays so (r ∷ rs) (keep, needed, skipped) id h =
    kept_stays so rs (step (so && not r.servable) r (keep, needed, skipped)) id
      (step_stays (so && not r.servable) r (keep, needed, skipped) id h)

step-AreNeeded :
    (so : Bool) (r : Record) (rs : List Record) (s : List Record × Dict Bool × ℕ)
    → AreNeeded (kept so rs (step false r s)).1 r
step-AreNeeded so r rs (keep, needed, skipped) = (
  kept_stays so rs _ r.stdout_blob (
      need_stays r.stderr_blob r.stdout_blob (need r.stdout_blob needed)
        (need-IsNeeded r.stdout_blob needed)),
  kept_stays so rs _ r.stderr_blob (need-IsNeeded r.stderr_blob (need r.stdout_blob needed)),
)

branch-AreNeeded :
    (so b : Bool) (r : Record) (rs : List Record) (s : List Record × Dict Bool × ℕ)
    → All (AreNeeded (kept so rs (step b r s)).1) (kept_records so rs)
    → All
        (AreNeeded (kept so rs (step b r s)).1)
        (if b then kept_records so rs else r ∷ kept_records so rs)
branch-AreNeeded so true r rs s a = a
branch-AreNeeded so false r rs s a = (step-AreNeeded so r rs s, a)

pub kept-AreNeeded :
    (so : Bool) (rs : List Record) (s : List Record × Dict Bool × ℕ)
    → All (AreNeeded (kept so rs s).1) (kept_records so rs)
unfolding kept kept_records
kept-AreNeeded so [] s = tt
kept-AreNeeded so (r ∷ rs) (keep, needed, skipped) =
    branch-AreNeeded so (so && not r.servable) r rs (keep, needed, skipped)
      (kept-AreNeeded so rs (step (so && not r.servable) r (keep, needed, skipped)))

module _ {A : Type 0} (P : A → Type 0) where
  Any-append_left : (xs ys : List A) → Any P xs → Any P (xs ++ ys)
  Any-append_left [] ys h = absurd h
  Any-append_left (x ∷ xs) ys (inl h) = inl h
  Any-append_left (x ∷ xs) ys (inr h) = inr (Any-append_left xs ys h)

  Any-snoc : (xs : List A) (x : A) → P x → Any P (xs ++ x ∷ [])
  Any-snoc [] x h = inl h
  Any-snoc (y ∷ xs) x h = inr (Any-snoc xs x h)

module _ (codec : Codec) (blobs : Dict Text) where
  -- An entry has the digest that the name of a blob says.
  abbrev pub IsAmong : Text → List Entry → Type 0
  IsAmong id es = Any (λ e. codec.digest e.content ≡ hash_of id) es

  -- There is no blob of that name, or it cannot be read, or it is among the entries.
  pub data IsPacked (id : Text) (es : List Entry) : Type 0 where
    no_blob : is_empty id ≡ true → IsPacked id es
    unreadable : get blobs (hash_of id) ≡ none → IsPacked id es
    packed : IsAmong id es → IsPacked id es

  add_blob_stays :
      (id b : Text) (o : Option Text) (s : BundleStats × List Entry)
      → IsAmong b s.1
      → IsAmong b (add_blob id o s).1
  unfolding add_blob
  add_blob_stays id b none s h = h
  add_blob_stays id b (some content) s h = Any-append_left _ s.1 _ h

  pack_blobs_stays :
      (ids : Dict Bool) (b : Text) (s : BundleStats × List Entry)
      → IsAmong b s.1
      → IsAmong b (pack_blobs blobs ids s).1
  unfolding pack_blobs
  pack_blobs_stays [] b s h = h
  pack_blobs_stays ((id, v) ∷ ids) b s h =
      pack_blobs_stays ids b (add_blob id (get blobs (hash_of id)) s)
        (add_blob_stays id b (get blobs (hash_of id)) s h)

  add_blob-IsAmong :
      (id : Text) (o : Option Text) (s : BundleStats × List Entry)
      → HasDigest codec.digest (hash_of id) o
      → (o ≡ none) ⊎ IsAmong id (add_blob id o s).1
  unfolding add_blob tar_file
  add_blob-IsAmong id none s h = inl refl
  add_blob-IsAmong id (some content) s h = inr (Any-snoc _ s.1 _ h)

  first-IsPacked :
      (ids : Dict Bool) (id : Text) (s : BundleStats × List Entry)
      → IsAddressed codec.digest blobs
      → IsPacked id (pack_blobs blobs ids (add_blob id (get blobs (hash_of id)) s)).1
  first-IsPacked ids id s i =
      elim (add_blob-IsAmong id (get blobs (hash_of id)) s (i.named (hash_of id))) [
        | inl e ↦ unreadable e
        | inr a ↦ packed (pack_blobs_stays ids id (add_blob id (get blobs (hash_of id)) s) a)
      ]

  pack_blobs-IsPacked :
      (ids : Dict Bool) (b : Text) (s : BundleStats × List Entry)
      → IsAddressed codec.digest blobs
      → HasKey ids b
      → IsPacked b (pack_blobs blobs ids s).1
  unfolding pack_blobs
  pack_blobs-IsPacked [] b s i h = absurd h
  pack_blobs-IsPacked ((id, v) ∷ ids) b s i (inr h) = pack_blobs-IsPacked ids b _ i h
  pack_blobs-IsPacked ((id, v) ∷ ids) b s i (inl h) =
      subst (λ c. IsPacked c (pack_blobs blobs ids (add_blob id (get blobs (hash_of id)) s)).1) h
        (first-IsPacked ids id s i)

  needed-IsPacked :
      (ids : Dict Bool) (b : Text) (s : BundleStats × List Entry)
      → IsAddressed codec.digest blobs
      → IsNeeded ids b
      → IsPacked b (pack_blobs blobs ids s).1
  needed-IsPacked ids b s i (inl e) = no_blob e
  needed-IsPacked ids b s i (inr h) = pack_blobs-IsPacked ids b s i h

  -- So it is with both outputs of a record.
  abbrev pub ArePacked : List Entry → Record → Type 0
  ArePacked es r = IsPacked r.stdout_blob es × IsPacked r.stderr_blob es

  pub all-ArePacked :
      (ids : Dict Bool) (rs : List Record) (s : BundleStats × List Entry)
      → IsAddressed codec.digest blobs
      → All (AreNeeded ids) rs
      → All (ArePacked (pack_blobs blobs ids s).1) rs
  all-ArePacked ids [] s i n = tt
  all-ArePacked ids (r ∷ rs) s i ((out, err), n) = (
    (needed-IsPacked ids r.stdout_blob s i out, needed-IsPacked ids r.stderr_blob s i err),
    all-ArePacked ids rs s i n,
  )
