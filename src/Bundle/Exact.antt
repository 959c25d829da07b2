-- ===== src/Bundle/Exact.antt =====
-- internal/hp/bundle.go: UnpackCache accepts every bundle that it may.
use fasthack.Prelude.{
  ◌≡◌, ◌↔◌, refl, subst, sym, inl, inr, Bool-cases, ◌∙◌, Bool, false, Option, none, some, List, [],
  ◌∷◌, ◌++◌, arith,
}
use fasthack.Text.{Text, text, text_eq, has_prefix}
use fasthack.Text.Laws.{text_eq_refl}
use fasthack.Text.PathName.{clean, is_abs}
use fasthack.Dict.{get}
use fasthack.Key.{key_version}
use fasthack.Hook.Flow.{without_prefix}
use fasthack.Bundle.{BundleManifest, bundle_version, Codec, Entry, Cache}
use fasthack.Bundle.Unpack.{
  Failure, Unpacking, on_manifest, count_blob, store_blob, on_blob, on_log, read_entry, is_unsafe,
  no_manifest, on_file, on_entry, then_rest, on_entries, stopped, close_unpack, unpack_cache,
}
use fasthack.Bundle.Accepted.{
  IsAcceptable, irregular, manifest_file, log_file, blob_file, other_file, IsWhole,
  manifest-on_entry, unpack_cache-IsWhole,
}

-- The step went well, and rejected nothing.
abbrev pub IsPassed : Unpacking → Option Failure × Unpacking → Type 0
IsPassed u p = (p.0 ≡ none) × (p.1.stats.rejected ≡ u.stats.rejected)

on_manifest-IsPassed :
    (m : BundleManifest) (u : Unpacking)
    → m.version ≡ bundle_version
    → m.key_version ≡ key_version
    → IsPassed u (on_manifest (some m) u)
unfolding on_manifest
on_manifest-IsPassed m u v k = ground (arith, text_eq_refl key_version)

rejected-store :
    (want content : Text) (o : Option Text) (u : Unpacking)
    → (store_blob want content o u).stats.rejected ≡ u.stats.rejected
unfolding store_blob
rejected-store want content none u = refl
rejected-store want content (some old) u = refl

module _ (codec : Codec) (vo : Bool) where
  on_blob-rejected :
      (want content : Text) (u : Unpacking)
      → codec.digest content ≡ want
      → (on_blob codec vo want content u).stats.rejected ≡ u.stats.rejected
  unfolding on_blob count_blob
  on_blob-rejected want content u e = elim (Bool-cases vo) [
    | inl v ↦ rw (e, text_eq_refl want, v) refl
    | inr v ↦
        rw (e, text_eq_refl want, v)
          (rejected-store want content (get u.blobs want) (count_blob content u))
  ]

  file_manifest :
      (content : Text) (m : BundleManifest) (u : Unpacking)
      → codec.read_manifest u.manifest content ≡ some m
      → m.version ≡ bundle_version
      → m.key_version ≡ key_version
      → IsPassed u (on_file codec vo (text "manifest.json") content u)
  unfolding on_file
  file_manifest content m u r v k =
      rw (text_eq_refl (text "manifest.json"), r) (on_manifest-IsPassed m u v k)

  file_log :
      (content : Text) (u : Unpacking) → IsPassed u (on_file codec vo (text "log.jsonl") content u)
  unfolding on_file on_log text text_eq
  file_log content u = (refl, refl)

  file_blob :
      (hash content : Text) (u : Unpacking)
      → codec.digest content ≡ hash
      → IsPassed u (on_file codec vo (text "blobs/" ++ hash) content u)
  unfolding on_file text text_eq has_prefix without_prefix
  file_blob hash content u e = (refl, on_blob-rejected hash content u e)

  safe_manifest : is_unsafe (text "manifest.json") ≡ false
  unfolding is_unsafe text has_prefix is_abs
  safe_manifest = refl

  safe_log : is_unsafe (text "log.jsonl") ≡ false
  unfolding is_unsafe text has_prefix is_abs
  safe_log = refl

  pub safe_blob : (hash : Text) → is_unsafe (text "blobs/" ++ hash) ≡ false
  unfolding is_unsafe text has_prefix is_abs
  safe_blob hash = refl

  module _ (e : Entry) (u : Unpacking) where
    on_file-IsPassed :
        is_unsafe (clean e.name) ≡ false
        → IsPassed u (on_file codec vo (clean e.name) (read_entry e) u)
        → IsPassed u (on_entry codec vo e u)
    unfolding on_entry read_entry
    on_file-IsPassed s p = elim (Bool-cases e.regular) [
      | inl r ↦ rw (r, s) p
      | inr r ↦ rw r (refl, refl)
    ]

    skipped : e.regular ≡ false → IsPassed u (on_entry codec vo e u)
    unfolding on_entry
    skipped r = rw r (refl, refl)

    passed_over :
        text_eq (clean e.name) (text "manifest.json") ≡ false
        → text_eq (clean e.name) (text "log.jsonl") ≡ false
        → has_prefix (text "blobs/") (clean e.name) ≡ false
        → IsPassed u (on_file codec vo (clean e.name) (read_entry e) u)
    unfolding on_file
    passed_over m l b = rw (m, l, b) (refl, refl)

    on_entry-IsPassed : IsAcceptable codec u.manifest e → IsPassed u (on_entry codec vo e u)
    on_entry-IsPassed (irregular r) = skipped r
    on_entry-IsPassed (manifest_file n m r v k) =
        on_file-IsPassed (rw n safe_manifest) (rw n (file_manifest (read_entry e) m u r v k))
    on_entry-IsPassed (log_file n) =
        on_file-IsPassed (rw n safe_log) (rw n (file_log (read_entry e) u))
    on_entry-IsPassed (blob_file hash n d) =
        on_file-IsPassed (rw n (safe_blob hash)) (rw n (file_blob hash (read_entry e) u d))
    on_entry-IsPassed (other_file s m l b) = on_file-IsPassed s (passed_over m l b)

  then_rest-IsPassed :
      (u : Unpacking) (p : Option Failure × Unpacking)
      (rest : Unpacking → Option Failure × Unpacking)
      → IsPassed u p
      → IsPassed p.1 (rest p.1)
      → IsPassed u (then_rest p rest)
  unfolding then_rest
  then_rest-IsPassed u (some f, v) rest (h, k) q = absurd (cc h)
  then_rest-IsPassed u (none, v) rest (h, k) (i, j) = (i, j ∙ k)

  on_entries-IsPassed :
      (es : List (Option Entry)) (u : Unpacking)
      → IsWhole codec u.manifest es
      → IsPassed u (on_entries codec vo es u)
  unfolding on_entries
  on_entries-IsPassed [] u w = (refl, refl)
  on_entries-IsPassed (none ∷ es) u w = absurd w
  on_entries-IsPassed (some e ∷ es) u (a, w) =
      let p = on_entry codec vo e u in
      let passed = on_entry-IsPassed e u a in
      then_rest-IsPassed u p (on_entries codec vo es) passed (
        on_entries-IsPassed es p.1
          (subst (λ m. IsWhole codec m es) (sym (manifest-on_entry codec vo e u passed.0)) w))

  close_unpack-IsPassed :
      (log : Text) (p : Option Failure × Unpacking)
      → p.0 ≡ none
      → p.1.stats.rejected ≡ 0
      → (close_unpack codec vo log p).failure ≡ none
  unfolding close_unpack stopped
  close_unpack-IsPassed log (some f, u) h k = absurd (cc h)
  close_unpack-IsPassed log (none, u) h k = rw k refl

-- A bundle is accepted exactly if it can be read to its end, and every regular entry is a manifest
-- that, read over the one before it, is of this format and key version, or the log, a blob named by
-- its digest, or another file at a safe path.
pub unpack_cache-IsWhole_iff :
    (codec : Codec) (vo : Bool) (es : List (Option Entry)) (cache : Cache)
    → (unpack_cache codec vo es cache).failure ≡ none ↔ IsWhole codec no_manifest es
unfolding unpack_cache
unpack_cache-IsWhole_iff codec vo es cache = (
  unpack_cache-IsWhole codec vo es cache,
  λ w.
      let (h, k) = on_entries-IsPassed codec vo es _ w in
      close_unpack-IsPassed codec vo cache.log (on_entries codec vo es _) h k,
)
