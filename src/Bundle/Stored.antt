-- ===== src/Bundle/Stored.antt =====
-- internal/hp/bundle.go: the blobs that UnpackCache stores.
use fasthack.Prelude.{
  ◌≡◌, inl, inr, refl, ◌∙◌, sym, Bool, true, false, Option, none, some, List, [], ◌∷◌, ◌++◌, map,
  All, Bool-cases, subst,
}
use fasthack.Text.{Text, text, text_eq, has_prefix}
use fasthack.Text.Laws.{text_eq_refl}
use fasthack.Text.PathName.{clean}
use fasthack.Dict.{Dict, get, put}
use fasthack.Dict.Laws.{get-put}
use fasthack.Hook.Flow.{without_prefix}
use fasthack.Bundle.{Codec, Entry}
use fasthack.Bundle.Unpack.{
  Failure, Unpacking, count_blob, store_blob, on_blob, read_entry, on_file, on_entry, on_entries,
  close_unpack,
}
use fasthack.Bundle.Addressed.{on_entries-IsFiled, close_unpack-IsFiled}
use fasthack.Bundle.Merged.{then_rest-none, safe_blob_name}

-- There is a blob under the hash.
abbrev pub HasBlob : Text → Dict Text → Type 0
HasBlob hash blobs = (content : Text) × (get blobs hash ≡ some content)

put-HasBlob :
    (hash want content : Text) (blobs : Dict Text)
    → HasBlob hash blobs
    → HasBlob hash (put blobs want content)
put-HasBlob hash want content blobs (old, h) = elim (Bool-cases (text_eq want hash)) [
  | inl e ↦ (content, get-put blobs want hash content ∙ rw e refl)
  | inr e ↦ (old, get-put blobs want hash content ∙ rw e h)
]

module _ (hash : Text) where
  on_entries-HasBlob :
      (codec : Codec) (vo : Bool) (es : List (Option Entry)) (u : Unpacking)
      → HasBlob hash u.blobs
      → HasBlob hash (on_entries codec vo es u).1.blobs
  on_entries-HasBlob codec =
      on_entries-IsFiled codec (HasBlob hash)
        (λ blobs want content e h. put-HasBlob hash want content blobs h)

  close_unpack-HasBlob :
      (codec : Codec) (vo : Bool) (log : Text) (p : Option Failure × Unpacking)
      → HasBlob hash p.1.blobs
      → HasBlob hash (close_unpack codec vo log p).cache.blobs
  close_unpack-HasBlob codec =
      close_unpack-IsFiled codec (HasBlob hash)
        (λ blobs want content e h. put-HasBlob hash want content blobs h)

store_blob-HasBlob :
    (want content : Text) (o : Option Text) (u : Unpacking)
    → get u.blobs want ≡ o
    → HasBlob want (store_blob want content o u).blobs
unfolding store_blob
store_blob-HasBlob want content (some old) u h = (old, h)
store_blob-HasBlob want content none u h =
    (content, get-put u.blobs want want content ∙ rw (text_eq_refl want) refl)

module _ (codec : Codec) where
  on_blob-HasBlob :
      (want content : Text) (u : Unpacking)
      → codec.digest content ≡ want
      → HasBlob want (on_blob codec false want content u).blobs
  unfolding on_blob count_blob
  on_blob-HasBlob want content u e =
      rw (e, text_eq_refl want)
        (store_blob-HasBlob want content (get u.blobs want) (count_blob content u) refl)

  on_file-HasBlob :
      (hash content : Text) (u : Unpacking)
      → codec.digest content ≡ hash
      → HasBlob hash (on_file codec false (text "blobs/" ++ hash) content u).1.blobs
  unfolding on_file text text_eq has_prefix without_prefix
  on_file-HasBlob hash content u e = on_blob-HasBlob hash content u e

  -- A blob that is stored: a regular entry, named by the digest of what is read.
  abbrev pub IsRead : Entry → Type 0
  IsRead e = (e.regular ≡ true) × (clean e.name ≡ text "blobs/" ++ codec.digest (read_entry e))

  on_entry_reads :
      (e : Entry) (u : Unpacking) (hash : Text)
      → e.regular ≡ true
      → clean e.name ≡ text "blobs/" ++ hash
      → on_entry codec false e u ≡ on_file codec false (text "blobs/" ++ hash) (read_entry e) u
  unfolding on_entry read_entry
  on_entry_reads e u hash r n = rw (r, n, safe_blob_name codec false hash) refl

  on_file_read :
      (hash content : Text) (u : Unpacking)
      → (on_file codec false (text "blobs/" ++ hash) content u).0 ≡ none
  unfolding on_file text text_eq has_prefix
  on_file_read hash content u = refl

  on_entry-HasBlob :
      (e : Entry) (u : Unpacking)
      → IsRead e
      → ((on_entry codec false e u).0 ≡ none)
        × HasBlob (codec.digest (read_entry e)) (on_entry codec false e u).1.blobs
  on_entry-HasBlob e u (r, n) =
      let hash = codec.digest (read_entry e) in
      subst (λ (p : Option Failure × Unpacking). (p.0 ≡ none) × HasBlob hash p.1.blobs)
        (sym (on_entry_reads e u hash r n))
        (on_file_read hash (read_entry e) u, on_file-HasBlob hash (read_entry e) u refl)

  pub all-HasBlob :
      (bs : List Entry) (rest : List (Option Entry)) (u : Unpacking)
      → All IsRead bs
      → All
          (λ e.
            HasBlob
              (codec.digest (read_entry e))
              (on_entries codec false (map some bs ++ rest) u).1.blobs)
          bs
  unfolding on_entries
  all-HasBlob [] rest u i = tt
  all-HasBlob (e ∷ bs) rest u (read, i) =
      let p = on_entry codec false e u in
      let (went, there) = on_entry-HasBlob e u read in
      let es = map some bs ++ rest in
      subst
        (λ (q : Option Failure × Unpacking).
          All (λ e. HasBlob (codec.digest (read_entry e)) q.1.blobs) (e ∷ bs))
        (sym (then_rest-none p (on_entries codec false es) went))
        (
          on_entries-HasBlob (codec.digest (read_entry e)) codec false es p.1 there,
          all-HasBlob bs rest p.1 i,
        )

  pub close_unpack-all-HasBlob :
      (vo : Bool) (log : Text) (p : Option Failure × Unpacking) (bs : List Entry)
      → All (λ e. HasBlob (codec.digest (read_entry e)) p.1.blobs) bs
      → All
          (λ e. HasBlob (codec.digest (read_entry e)) (close_unpack codec vo log p).cache.blobs)
          bs
  close_unpack-all-HasBlob vo log p [] h = tt
  close_unpack-all-HasBlob vo log p (e ∷ bs) (h, hs) = (
    close_unpack-HasBlob (codec.digest (read_entry e)) codec vo log p h,
    close_unpack-all-HasBlob vo log p bs hs,
  )
