-- ===== src/Bundle/Addressed.antt =====
-- internal/hp/bundle.go: what UnpackCache leaves on the disk.
use fasthack.Prelude.{
  ◌≡◌, ◌≢◌, ◌⊎◌, ◌∙◌, refl, inl, inr, Bool, true, false, Option, none, some, List, [], ◌∷◌, ltb,
  if◌then◌else◌, Bool-cases,
}
use fasthack.Text.{Text, text, text_eq, has_prefix}
use fasthack.Text.Laws.{text_eq_sound}
use fasthack.Text.PathName.{clean}
use fasthack.Dict.{Dict, get, put}
use fasthack.Dict.Laws.{get-put}
use fasthack.Hook.Flow.{without_prefix}
use fasthack.Bundle.{BundleManifest, Codec, Entry, Cache}
use fasthack.Bundle.Unpack.{
  Failure, Unpacking, on_manifest, reject, count_blob, store_blob, on_blob, on_log, read_entry,
  is_unsafe, on_file, on_entry, then_rest, on_entries, stopped, close_unpack, unpack_cache,
}

-- A blob that is there has the digest that it is filed under.
abbrev pub HasDigest : (Text → Text) → Text → Option Text → Type 0
HasDigest digest id none = Unit
HasDigest digest id (some content) = digest content ≡ id

pub record IsAddressed (digest : Text → Text) (blobs : Dict Text) : Type 0 where
  pub named : (id : Text) → HasDigest digest id (get blobs id)

module _ (digest : Text → Text) (blobs : Dict Text) (i : IsAddressed digest blobs) where
  pub put-IsAddressed :
      (want content : Text) → digest content ≡ want → IsAddressed digest (put blobs want content)
  put-IsAddressed want content e = record {
    named = λ id. rw get-put (at id (Bool-cases (text_eq want id)));
  }
    where
      at :
          (id : Text)
          → (text_eq want id ≡ true) ⊎ (text_eq want id ≡ false)
          → HasDigest digest id (if text_eq want id then some content else get blobs id)
      at id (inl same) = rw same (e ∙ text_eq_sound want id same)
      at id (inr other) = rw other (i.named id)

-- A predicate on the blobs that every blob with its own digest leaves true.
module _ (codec : Codec) (P : Dict Text → Type 0)
    (kept : (blobs : Dict Text) (want content : Text)
      → codec.digest content ≡ want
      → P blobs
      → P (put blobs want content)) where
  abbrev IsFiled : Unpacking → Type 0
  IsFiled u = P u.blobs

  store_blob-IsFiled :
      (want content : Text) (o : Option Text) (u : Unpacking)
      → codec.digest content ≡ want
      → IsFiled u
      → IsFiled (store_blob want content o u)
  unfolding store_blob
  store_blob-IsFiled want content none u e i = kept u.blobs want content e i
  store_blob-IsFiled want content (some old) u e i = i

  on_blob-IsFiled :
      (vo : Bool) (want content : Text) (u : Unpacking)
      → IsFiled u
      → IsFiled (on_blob codec vo want content u)
  unfolding on_blob reject count_blob
  on_blob-IsFiled vo want content u i = elim (Bool-cases (text_eq (codec.digest content) want)) [
    | inr e ↦ rw e i
    | inl e ↦ elim (Bool-cases vo) [
      | inl v ↦ rw (e, v) i
      | inr v ↦
          rw (e, v)
            (store_blob-IsFiled want content (get u.blobs want) (count_blob content u)
              (text_eq_sound (codec.digest content) want e) i)
    ]
  ]

  on_manifest-IsFiled :
      (o : Option BundleManifest) (u : Unpacking) → IsFiled u → IsFiled (on_manifest o u).1
  unfolding on_manifest
  on_manifest-IsFiled none u i = i
  on_manifest-IsFiled (some m) u i = i

  on_file-IsFiled :
      (vo : Bool) (name content : Text) (u : Unpacking)
      → IsFiled u
      → IsFiled (on_file codec vo name content u).1
  unfolding on_file on_log
  on_file-IsFiled vo name content u i = elim (Bool-cases (text_eq name (text "manifest.json"))) [
    | inl m ↦ rw m (on_manifest-IsFiled (codec.read_manifest u.manifest content) u i)
    | inr m ↦ elim (Bool-cases (text_eq name (text "log.jsonl"))) [
      | inl l ↦ rw (m, l) i
      | inr l ↦ elim (Bool-cases (has_prefix (text "blobs/") name)) [
        | inl b ↦
            rw (m, l, b) (on_blob-IsFiled vo (without_prefix (text "blobs/") name) content u i)
        | inr b ↦ rw (m, l, b) i
      ]
    ]
  ]

  on_entry-IsFiled :
      (vo : Bool) (e : Entry) (u : Unpacking) → IsFiled u → IsFiled (on_entry codec vo e u).1
  unfolding on_entry read_entry
  on_entry-IsFiled vo e u i = elim (Bool-cases e.regular) [
    | inr r ↦ rw r i
    | inl r ↦ elim (Bool-cases (is_unsafe (clean e.name))) [
      | inl s ↦ rw (r, s) i
      | inr s ↦ rw (r, s) (on_file-IsFiled vo (clean e.name) (read_entry e) u i)
    ]
  ]

  then_rest-IsFiled :
      (p : Option Failure × Unpacking) (rest : Unpacking → Option Failure × Unpacking)
      → IsFiled p.1
      → ((u : Unpacking) → IsFiled u → IsFiled (rest u).1)
      → IsFiled (then_rest p rest).1
  unfolding then_rest
  then_rest-IsFiled (some f, u) rest i more = i
  then_rest-IsFiled (none, u) rest i more = more u i

  pub on_entries-IsFiled :
      (vo : Bool) (es : List (Option Entry)) (u : Unpacking)
      → IsFiled u
      → IsFiled (on_entries codec vo es u).1
  unfolding on_entries
  on_entries-IsFiled vo [] u i = i
  on_entries-IsFiled vo (none ∷ es) u i = i
  on_entries-IsFiled vo (some e ∷ es) u i =
      then_rest-IsFiled (on_entry codec vo e u) (on_entries codec vo es) (on_entry-IsFiled vo e u i)
        (on_entries-IsFiled vo es)

  pub close_unpack-IsFiled :
      (vo : Bool) (log : Text) (p : Option Failure × Unpacking)
      → IsFiled p.1
      → P (close_unpack codec vo log p).cache.blobs
  unfolding close_unpack stopped
  close_unpack-IsFiled vo log (some f, u) i = i
  close_unpack-IsFiled vo log (none, u) i = elim (Bool-cases (ltb 0 u.stats.rejected)) [
    | inl e ↦ rw e i
    | inr e ↦ rw e i
  ]

  pub unpack_cache-keeps :
      (vo : Bool) (es : List (Option Entry)) (cache : Cache)
      → P cache.blobs
      → P (unpack_cache codec vo es cache).cache.blobs
  unfolding unpack_cache
  unpack_cache-keeps vo es cache i =
      close_unpack-IsFiled vo cache.log (on_entries codec vo es _) (on_entries-IsFiled vo es _ i)

close_unpack_log :
    (codec : Codec) (vo : Bool) (log : Text) (p : Option Failure × Unpacking)
    → (close_unpack codec vo log p).failure ≢ none
    → (close_unpack codec vo log p).cache.log ≡ log
unfolding close_unpack stopped
close_unpack_log codec vo log (some f, u) h = refl
close_unpack_log codec vo log (none, u) h = elim (Bool-cases (ltb 0 u.stats.rejected)) [
  | inl e ↦ rw e refl
  | inr e ↦ absurd (rw e at h refl)
]

-- Whether a bundle is accepted or refused, each blob that is left in the cache has the digest that it
-- is filed under, if those that were there before have.
pub unpack_cache-IsAddressed :
    (codec : Codec) (vo : Bool) (es : List (Option Entry)) (cache : Cache)
    → IsAddressed codec.digest cache.blobs
    → IsAddressed codec.digest (unpack_cache codec vo es cache).cache.blobs
unpack_cache-IsAddressed codec =
    unpack_cache-keeps codec (IsAddressed codec.digest)
      (λ blobs want content e i. put-IsAddressed codec.digest blobs i want content e)

-- A bundle that is refused leaves the log file as it was, and each blob in the cache still has the digest
-- that it is filed under.
pub unpack_cache_refused :
    (codec : Codec) (vo : Bool) (es : List (Option Entry)) (cache : Cache)
    → IsAddressed codec.digest cache.blobs
    → (unpack_cache codec vo es cache).failure ≢ none
    → ((unpack_cache codec vo es cache).cache.log ≡ cache.log)
      × IsAddressed codec.digest (unpack_cache codec vo es cache).cache.blobs
unfolding unpack_cache
unpack_cache_refused codec vo es cache i h = (
  close_unpack_log codec vo cache.log (on_entries codec vo es _) h,
  unpack_cache-IsAddressed codec vo es cache i,
)
