-- ===== src/Bundle/Accepted.antt =====
-- internal/hp/bundle.go: which bundles UnpackCache accepts, and what a refusal leaves.
use fasthack.Prelude.{
  ℕ, ◌≤◌, ◌≡◌, refl, ap, subst, ◌&&◌, if◌then◌else◌, inl, inr, Bool, true, false, Option, none,
  some, List, [], ◌∷◌, ◌++◌, arith, ltb, ◌==◌, Bool-cases,
}
use fasthack.Text.{Text, text, text_eq, has_prefix}
use fasthack.Text.Laws.{text_eq_sound}
use fasthack.Text.PathName.{clean}
use fasthack.Dict.{get}
use fasthack.Key.{key_version}
use fasthack.Hook.Flow.{without_prefix}
use fasthack.Bundle.{BundleManifest, bundle_version, Codec, Entry, Cache}
use fasthack.Bundle.Unpack.{
  Failure, Unpacking, on_manifest, reject, count_blob, store_blob, on_blob, on_log, read_entry,
  is_unsafe, no_manifest, on_file, on_entry, then_rest, on_entries, stopped, close_unpack,
  unpack_cache,
}

-- An entry that a bundle may have: it is no regular file; or it is a manifest of this format and key
-- version, the log, a blob named by its digest, or a file at a safe path that is passed over.
pub data IsAcceptable (codec : Codec) (old : BundleManifest) (e : Entry) : Type 0 where
  irregular : e.regular ≡ false → IsAcceptable codec old e
  manifest_file :
      clean e.name ≡ text "manifest.json"
      → (m : BundleManifest) → codec.read_manifest old (read_entry e) ≡ some m
      → m.version ≡ bundle_version
      → m.key_version ≡ key_version
      → IsAcceptable codec old e
  log_file : clean e.name ≡ text "log.jsonl" → IsAcceptable codec old e
  blob_file :
      (hash : Text)
      → clean e.name ≡ text "blobs/" ++ hash
      → codec.digest (read_entry e) ≡ hash
      → IsAcceptable codec old e
  other_file :
      is_unsafe (clean e.name) ≡ false
      → text_eq (clean e.name) (text "manifest.json") ≡ false
      → text_eq (clean e.name) (text "log.jsonl") ≡ false
      → has_prefix (text "blobs/") (clean e.name) ≡ false
      → IsAcceptable codec old e

abbrev pub or_old : BundleManifest → Option BundleManifest → BundleManifest
or_old old none = old
or_old old (some m) = m

-- The manifest that is known behind an entry.
unfoldable pub manifest_after : Codec → BundleManifest → Entry → BundleManifest
manifest_after codec old e =
    if e.regular && text_eq (clean e.name) (text "manifest.json")
    then or_old old (codec.read_manifest old (read_entry e))
    else old

-- The archive can be read to its end, and may have each of its entries.
abbrev pub IsWhole : Codec → BundleManifest → List (Option Entry) → Type 0
IsWhole codec old [] = Unit
IsWhole codec old (none ∷ es) = ⊥
IsWhole codec old (some e ∷ es) =
    IsAcceptable codec old e × IsWhole codec (manifest_after codec old e) es

prefix_split : (p s : Text) → has_prefix p s ≡ true → s ≡ p ++ without_prefix p s
unfolding has_prefix without_prefix
prefix_split [] s h = refl
prefix_split (c ∷ p) [] h = absurd (cc h)
prefix_split (c ∷ p) (d ∷ s) h = ground (arith, prefix_split p s)

manifest_fits :
    (o : Option BundleManifest) (u : Unpacking)
    → (on_manifest o u).0 ≡ none
    → (m : BundleManifest) × (o ≡ some m)
      × (m.version ≡ bundle_version)
      × (m.key_version ≡ key_version)
unfolding on_manifest
manifest_fits none u h = absurd (cc h)
manifest_fits (some m) u h = elim (Bool-cases (m.version == bundle_version)) [
  | inr e ↦ absurd (cc (rw e at h))
  | inl e ↦ elim (Bool-cases (text_eq m.key_version key_version)) [
    | inr f ↦ absurd (cc (rw (e, f) at h))
    | inl f ↦ (m, refl, ground arith, text_eq_sound m.key_version key_version f)
  ]
]

rejected-store_blob :
    (want content : Text) (o : Option Text) (u : Unpacking)
    → (store_blob want content o u).stats.rejected ≡ u.stats.rejected
unfolding store_blob
rejected-store_blob want content none u = refl
rejected-store_blob want content (some old) u = refl

module _ (codec : Codec) (vo : Bool) (want content : Text) (u : Unpacking) where
  rejected-on_blob : u.stats.rejected ≤ (on_blob codec vo want content u).stats.rejected
  unfolding on_blob reject count_blob
  rejected-on_blob = elim (Bool-cases (text_eq (codec.digest content) want)) [
    | inr e ↦ rw e (omega arith)
    | inl e ↦ elim (Bool-cases vo) [
      | inl v ↦ rw (e, v) (omega arith)
      | inr v ↦
          rw (e, v)
            (omega
              (arith, rejected-store_blob want content (get u.blobs want) (count_blob content u)))
    ]
  ]

  blob_fits :
      (on_blob codec vo want content u).stats.rejected ≤ u.stats.rejected
      → codec.digest content ≡ want
  unfolding on_blob reject
  blob_fits h = elim (Bool-cases (text_eq (codec.digest content) want)) [
    | inl e ↦ text_eq_sound (codec.digest content) want e
    | inr e ↦ absurd (omega (arith, rw e at h))
  ]

rejected-on_manifest :
    (o : Option BundleManifest) (u : Unpacking)
    → (on_manifest o u).1.stats.rejected ≡ u.stats.rejected
unfolding on_manifest
rejected-on_manifest none u = refl
rejected-on_manifest (some m) u = refl

manifest-store_blob :
    (want content : Text) (o : Option Text) (u : Unpacking)
    → (store_blob want content o u).manifest ≡ u.manifest
unfolding store_blob
manifest-store_blob want content none u = refl
manifest-store_blob want content (some old) u = refl

manifest-on_manifest :
    (o : Option BundleManifest) (u : Unpacking) → (on_manifest o u).1.manifest ≡ or_old u.manifest o
unfolding on_manifest
manifest-on_manifest none u = refl
manifest-on_manifest (some m) u = refl

module _ (codec : Codec) (vo : Bool) (e : Entry) (u : Unpacking) where
  rejected-on_file :
      (name content : Text) → u.stats.rejected ≤ (on_file codec vo name content u).1.stats.rejected
  unfolding on_file on_log
  rejected-on_file name content = elim (Bool-cases (text_eq name (text "manifest.json"))) [
    | inl m ↦ rw m (omega (arith, rejected-on_manifest (codec.read_manifest u.manifest content) u))
    | inr m ↦ elim (Bool-cases (text_eq name (text "log.jsonl"))) [
      | inl l ↦ rw (m, l) (omega arith)
      | inr l ↦ elim (Bool-cases (has_prefix (text "blobs/") name)) [
        | inl b ↦
            rw (m, l, b) (rejected-on_blob codec vo (without_prefix (text "blobs/") name) content u)
        | inr b ↦ rw (m, l, b) (omega arith)
      ]
    ]
  ]

  rejected-on_entry : u.stats.rejected ≤ (on_entry codec vo e u).1.stats.rejected
  unfolding on_entry read_entry
  rejected-on_entry = elim (Bool-cases e.regular) [
    | inr r ↦ rw r (omega arith)
    | inl r ↦ elim (Bool-cases (is_unsafe (clean e.name))) [
      | inl s ↦ rw (r, s) (omega arith)
      | inr s ↦ rw (r, s) (rejected-on_file (clean e.name) (read_entry e))
    ]
  ]

  on_file-IsAcceptable :
      is_unsafe (clean e.name) ≡ false
      → (on_file codec vo (clean e.name) (read_entry e) u).0 ≡ none
      → (on_file codec vo (clean e.name) (read_entry e) u).1.stats.rejected ≤ u.stats.rejected
      → IsAcceptable codec u.manifest e
  unfolding on_file
  on_file-IsAcceptable s h k = elim (Bool-cases (text_eq (clean e.name) (text "manifest.json"))) [
    | inl m ↦
        let (manifest, read, format, keys) =
          manifest_fits (codec.read_manifest u.manifest (read_entry e)) u (rw m at h) in
        manifest_file (text_eq_sound (clean e.name) (text "manifest.json") m) manifest read format
          keys
    | inr m ↦ elim (Bool-cases (text_eq (clean e.name) (text "log.jsonl"))) [
      | inl l ↦ log_file (text_eq_sound (clean e.name) (text "log.jsonl") l)
      | inr l ↦ elim (Bool-cases (has_prefix (text "blobs/") (clean e.name))) [
        | inr b ↦ other_file s m l b
        | inl b ↦
            blob_file (without_prefix (text "blobs/") (clean e.name))
              (prefix_split (text "blobs/") (clean e.name) b)
              (blob_fits codec vo (without_prefix (text "blobs/") (clean e.name)) (read_entry e) u
                (rw (m, l, b) at k))
      ]
    ]
  ]

  manifest-on_blob : (want content : Text) → (on_blob codec vo want content u).manifest ≡ u.manifest
  unfolding on_blob reject count_blob
  manifest-on_blob want content = elim (Bool-cases (text_eq (codec.digest content) want)) [
    | inr d ↦ rw d refl
    | inl d ↦ elim (Bool-cases vo) [
      | inl v ↦ rw (d, v) refl
      | inr v ↦
          rw (d, v) (manifest-store_blob want content (get u.blobs want) (count_blob content u))
    ]
  ]

  manifest-on_file :
      (name content : Text)
      → (on_file codec vo name content u).1.manifest ≡ (
          if text_eq name (text "manifest.json")
          then or_old u.manifest (codec.read_manifest u.manifest content)
          else u.manifest)
  unfolding on_file on_log
  manifest-on_file name content = elim (Bool-cases (text_eq name (text "manifest.json"))) [
    | inl m ↦ rw m (manifest-on_manifest (codec.read_manifest u.manifest content) u)
    | inr m ↦ elim (Bool-cases (text_eq name (text "log.jsonl"))) [
      | inl l ↦ rw (m, l) refl
      | inr l ↦ elim (Bool-cases (has_prefix (text "blobs/") name)) [
        | inl b ↦ rw (m, l, b) (manifest-on_blob (without_prefix (text "blobs/") name) content)
        | inr b ↦ rw (m, l, b) refl
      ]
    ]
  ]

  pub manifest-on_entry :
      (on_entry codec vo e u).0 ≡ none
      → (on_entry codec vo e u).1.manifest ≡ manifest_after codec u.manifest e
  unfolding on_entry read_entry manifest_after
  manifest-on_entry h = elim (Bool-cases e.regular) [
    | inr r ↦ rw r refl
    | inl r ↦ elim (Bool-cases (is_unsafe (clean e.name))) [
      | inl s ↦ absurd (cc (rw (r, s) at h))
      | inr s ↦ rw (r, s) (manifest-on_file (clean e.name) (read_entry e))
    ]
  ]

  on_entry-IsAcceptable :
      (on_entry codec vo e u).0 ≡ none
      → (on_entry codec vo e u).1.stats.rejected ≤ u.stats.rejected
      → IsAcceptable codec u.manifest e
  unfolding on_entry read_entry
  on_entry-IsAcceptable h k = elim (Bool-cases e.regular) [
    | inr r ↦ irregular r
    | inl r ↦ elim (Bool-cases (is_unsafe (clean e.name))) [
      | inl s ↦ absurd (cc (rw (r, s) at h))
      | inr s ↦ on_file-IsAcceptable s (rw (r, s) at h) (rw (r, s) at k)
    ]
  ]

then_rest_rejected :
    (n : ℕ) (p : Option Failure × Unpacking) (rest : Unpacking → Option Failure × Unpacking)
    → n ≤ p.1.stats.rejected
    → ((u : Unpacking) → u.stats.rejected ≤ (rest u).1.stats.rejected)
    → n ≤ (then_rest p rest).1.stats.rejected
unfolding then_rest
then_rest_rejected n (some f, u) rest h more = h
then_rest_rejected n (none, u) rest h more = omega (arith, h, more u)

then_rest-eq_none :
    (p : Option Failure × Unpacking) (rest : Unpacking → Option Failure × Unpacking)
    → (then_rest p rest).0 ≡ none
    → (p.0 ≡ none) × (then_rest p rest ≡ rest p.1)
unfolding then_rest
then_rest-eq_none (some f, u) rest h = absurd (cc h)
then_rest-eq_none (none, u) rest h = (refl, refl)

module _ (codec : Codec) (vo : Bool) where
  rejected-on_entries :
      (es : List (Option Entry)) (u : Unpacking)
      → u.stats.rejected ≤ (on_entries codec vo es u).1.stats.rejected
  unfolding on_entries
  rejected-on_entries [] u = omega arith
  rejected-on_entries (none ∷ es) u = omega arith
  rejected-on_entries (some e ∷ es) u =
      then_rest_rejected u.stats.rejected (on_entry codec vo e u) (on_entries codec vo es)
        (rejected-on_entry codec vo e u) (rejected-on_entries es)

  on_entries-IsWhole :
      (es : List (Option Entry)) (u : Unpacking)
      → (on_entries codec vo es u).0 ≡ none
      → (on_entries codec vo es u).1.stats.rejected ≤ u.stats.rejected
      → IsWhole codec u.manifest es
  unfolding on_entries
  on_entries-IsWhole [] u h k = tt
  on_entries-IsWhole (none ∷ es) u h k = absurd (cc h)
  on_entries-IsWhole (some e ∷ es) u h k =
      let p = on_entry codec vo e u in
      let (first, same) = then_rest-eq_none p (on_entries codec vo es) h in
      let last = ap (λ (q : Option Failure × Unpacking). q.1.stats.rejected) same in
      (
        on_entry-IsAcceptable codec vo e u first
            (omega (arith, k, last, rejected-on_entries es p.1)),
        subst (λ m. IsWhole codec m es) (manifest-on_entry codec vo e u first)
            (on_entries-IsWhole es p.1 (cc (h, same))
              (omega (arith, k, last, rejected-on_entry codec vo e u))),
      )

close_unpack-none :
    (codec : Codec) (vo : Bool) (log : Text) (p : Option Failure × Unpacking)
    → (close_unpack codec vo log p).failure ≡ none
    → (p.0 ≡ none) × (p.1.stats.rejected ≤ 0)
unfolding close_unpack stopped
close_unpack-none codec vo log (some f, u) h = absurd (cc h)
close_unpack-none codec vo log (none, u) h = elim (Bool-cases (ltb 0 u.stats.rejected)) [
  | inl e ↦ absurd (cc (rw e at h))
  | inr e ↦ (refl, ground arith)
]

-- The half of `Exact` in which the bundle is accepted.
pub unpack_cache-IsWhole :
    (codec : Codec) (vo : Bool) (es : List (Option Entry)) (cache : Cache)
    → (unpack_cache codec vo es cache).failure ≡ none
    → IsWhole codec no_manifest es
unfolding unpack_cache
unpack_cache-IsWhole codec vo es cache h =
    let (read, none_rejected) = close_unpack-none codec vo cache.log (on_entries codec vo es _) h in
    on_entries-IsWhole codec vo es _ read (omega (arith, none_rejected))
