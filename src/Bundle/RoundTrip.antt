-- ===== src/Bundle/RoundTrip.antt =====
-- internal/hp/bundle.go: what PackCache writes, UnpackCache accepts.
use fasthack.Prelude.{
  Bool-cases, inl, inr, ◌+◌, ◌≤◌, ◌≡◌, refl, inl, inr, ap, ◌∙◌, sym, subst, Bool, true, false, none,
  some, List, [], ◌∷◌, ◌++◌, length, map, map-append, All, All_parts, take-all,
}
use fasthack.Text.{Text, text, text_eq, is_empty}
use fasthack.Text.PathName.{
  clean, is_abs, split_parts, join_parts, clean_part, clean_parts, rev_onto,
}
use fasthack.Dict.{Dict, get}
use fasthack.Record.{Record}
use fasthack.Record.Output.{max_output_bytes}
use fasthack.Hook.Flow.{hash_of}
use fasthack.Bundle.{BundleManifest, Codec, Entry, Cache}
use fasthack.Bundle.Pack.{tar_file, Origin, manifest_of, pack_cache}
use fasthack.Bundle.Unpack.{
  no_manifest, Unpacking, read_entry, on_entries, closed_lines, unpack_cache,
}
use fasthack.Bundle.Accepted.{
  IsAcceptable, manifest_file, log_file, blob_file, IsWhole, manifest_after,
}
use fasthack.Bundle.Addressed.{IsAddressed}
use fasthack.Bundle.Exact.{unpack_cache-IsWhole_iff}
use fasthack.Bundle.Named.{IsHex, clean-blob_name}
use fasthack.Bundle.Merged.{on_entries-log_lines, close_unpack-added, closed_lines-kept_lines}
use fasthack.Bundle.Needed.{kept_records, IsAmong, IsPacked, ArePacked}
use fasthack.Bundle.Needed
use fasthack.Bundle.Stored.{HasBlob, IsRead, all-HasBlob, close_unpack-all-HasBlob}
use fasthack.Bundle.Packed.{IsBlob, kept_lines, IsArchive, pack_cache-IsArchive}

-- The content is read to its end.
abbrev pub IsFit : Entry → Type 0
IsFit e = length e.content ≤ max_output_bytes + 1

read_entry-IsFit : (e : Entry) → IsFit e → read_entry e ≡ e.content
unfolding read_entry
read_entry-IsFit e h = take-all (max_output_bytes + 1) e.content h

-- What is read back, into an empty variable, from a manifest that was printed.
abbrev pub IsReadBack : Codec → BundleManifest → Text → Type 0
IsReadBack codec m t =
    (m' : BundleManifest) × (codec.read_manifest no_manifest t ≡ some m')
    × (m'.version ≡ m.version)
    × (m'.key_version ≡ m.key_version)

-- There is no blob of that name, or it could not be read where it was packed, or it is there.
pub data IsStored (source blobs : Dict Text) (id : Text) : Type 0 where
  no_blob : is_empty id ≡ true → IsStored source blobs id
  unreadable : get source (hash_of id) ≡ none → IsStored source blobs id
  stored : HasBlob (hash_of id) blobs → IsStored source blobs id

-- So it is with both outputs of a record.
abbrev pub AreStored : Dict Text → Dict Text → Record → Type 0
AreStored source blobs r = IsStored source blobs r.stdout_blob × IsStored source blobs r.stderr_blob

module _ (codec : Codec) (hex : (t : Text) → IsHex (codec.digest t)) where
  clean-blob : (e : Entry) → IsBlob codec e → clean e.name ≡ text "blobs/" ++ codec.digest e.content
  clean-blob e b = ap clean b.1 ∙ clean-blob_name (codec.digest e.content) (hex e.content)

  blob-IsAcceptable :
      (old : BundleManifest) (e : Entry) → IsBlob codec e → IsFit e → IsAcceptable codec old e
  blob-IsAcceptable old e b f =
      blob_file (codec.digest e.content) (clean-blob e b) (ap codec.digest (read_entry-IsFit e f))

  manifest_after-blob :
      (old : BundleManifest) (e : Entry) (hash : Text)
      → clean e.name ≡ text "blobs/" ++ hash
      → manifest_after codec old e ≡ old
  unfolding manifest_after text text_eq
  manifest_after-blob old e hash n = elim (Bool-cases e.regular) [
    | inl r ↦ rw (r, n) refl
    | inr r ↦ rw r refl
  ]

  -- Blobs in front of an archive.
  blobs-IsWhole :
      (old : BundleManifest) (bs rest : List Entry)
      → All (IsBlob codec) bs
      → All IsFit bs
      → IsWhole codec old (map some rest)
      → IsWhole codec old (map some (bs ++ rest))
  blobs-IsWhole old [] rest b f w = w
  blobs-IsWhole old (e ∷ bs) rest (b, bs') (f, fs) w = (
    blob-IsAcceptable old e b f,
    subst (λ m. IsWhole codec m (map some (bs ++ rest)))
        (sym (manifest_after-blob old e (codec.digest e.content) (clean-blob e b)))
        (blobs-IsWhole old bs rest bs' fs w),
  )

  module _ (o : Origin) (servable_only : Bool) (records : List Record) (source : Dict Text)
      (es : List Entry)
      (back : (m : BundleManifest) (t : Text)
        → codec.print_manifest m ≡ some t
        → IsReadBack codec m t)
      (a : IsArchive codec o servable_only records source es) (fit : All IsFit es) where
    parts-IsFit :
        All IsFit a.blobs
        × All IsFit (
            tar_file (text "log.jsonl") (kept_lines codec servable_only records)
            ∷ tar_file (text "manifest.json") a.manifest
            ∷ [])
    parts-IsFit = All_parts IsFit a.blobs _ (subst (All IsFit) a.in_order fit)

    manifest-IsAcceptable :
        IsFit (tar_file (text "manifest.json") a.manifest)
        → IsAcceptable codec no_manifest (tar_file (text "manifest.json") a.manifest)
    unfolding tar_file clean is_abs split_parts clean_parts clean_part rev_onto join_parts text
        is_empty text_eq manifest_of
    manifest-IsAcceptable f =
        let (m, read, v, k) = back (manifest_of o servable_only a.stats) a.manifest a.is_printed in
        manifest_file refl m (ap (codec.read_manifest no_manifest) (read_entry-IsFit _ f) ∙ read) v
          k

    last_two-IsWhole :
        (log : Text)
        → IsAcceptable codec no_manifest (tar_file (text "manifest.json") a.manifest)
        → IsWhole codec no_manifest (
            map some
              (tar_file (text "log.jsonl") log ∷ tar_file (text "manifest.json") a.manifest ∷ []))
    unfolding tar_file clean is_abs split_parts clean_parts clean_part rev_onto join_parts text
        is_empty text_eq manifest_after
    last_two-IsWhole log m = (log_file refl, (m, tt))

    archive-IsWhole : IsWhole codec no_manifest (map some es)
    archive-IsWhole =
        subst (λ fs. IsWhole codec no_manifest (map some fs)) (sym a.in_order)
          (blobs-IsWhole no_manifest a.blobs _ a.are_blobs parts-IsFit.0
            (last_two-IsWhole _ (manifest-IsAcceptable parts-IsFit.1.1.0)))

    are_named :
        (bs : List Entry)
        → All (IsBlob codec) bs
        → All (λ e. (hash : Text) × (clean e.name ≡ text "blobs/" ++ hash)) bs
    are_named [] b = tt
    are_named (e ∷ bs) (b, bs') = ((codec.digest e.content, clean-blob e b), are_named bs bs')

    archive_added :
        (vo : Bool) (u : Unpacking)
        → (on_entries codec vo (map some es) u).1.log_lines ≡ kept_lines codec servable_only records
    unfolding tar_file
    archive_added vo u =
        ap (λ fs. (on_entries codec vo (map some fs) u).1.log_lines) a.in_order
        ∙ on_entries-log_lines codec vo a.blobs (kept_lines codec servable_only records) a.manifest
            u (are_named a.blobs a.are_blobs) parts-IsFit.1.0

    all-IsRead : (bs : List Entry) → All (IsBlob codec) bs → All IsFit bs → All (IsRead codec) bs
    all-IsRead [] b f = tt
    all-IsRead (e ∷ bs) (b, bs') (f, fs) = (
      (
        b.0,
        clean-blob e b ∙ ap (λ t. text "blobs/" ++ codec.digest t) (sym (read_entry-IsFit e f)),
      ),
      all-IsRead bs bs' fs,
    )

    archive_stored :
        (u : Unpacking)
        → All
            (λ e.
              HasBlob
                (codec.digest (read_entry e))
                (on_entries codec false (map some es) u).1.blobs)
            a.blobs
    archive_stored u =
        subst
          (λ fs.
            All (λ e. HasBlob (codec.digest (read_entry e)) (on_entries codec false fs u).1.blobs)
              a.blobs)
          (sym (ap (map some) a.in_order ∙ map-append some a.blobs _))
          (all-HasBlob codec a.blobs _ u (all-IsRead a.blobs a.are_blobs parts-IsFit.0))

module _ (codec : Codec) (source blobs : Dict Text) where
  found :
      (bs : List Entry) (id : Text)
      → All IsFit bs
      → All (λ e. HasBlob (codec.digest (read_entry e)) blobs) bs
      → IsAmong codec source id bs
      → HasBlob (hash_of id) blobs
  found [] id f h i = absurd i
  found (e ∷ bs) id (f, fs) (h, hs) (inl i) =
      subst (λ k. HasBlob k blobs) (ap codec.digest (read_entry-IsFit e f) ∙ i) h
  found (e ∷ bs) id (f, fs) (h, hs) (inr i) = found bs id fs hs i

  module _ (bs : List Entry) (f : All IsFit bs)
      (h : All (λ e. HasBlob (codec.digest (read_entry e)) blobs) bs) where
    packed-IsStored : (id : Text) → IsPacked codec source id bs → IsStored source blobs id
    packed-IsStored id (Needed.no_blob e) = no_blob e
    packed-IsStored id (Needed.unreadable e) = unreadable e
    packed-IsStored id (Needed.packed i) = stored (found bs id f h i)

    all-AreStored :
        (rs : List Record) → All (ArePacked codec source bs) rs → All (AreStored source blobs) rs
    all-AreStored [] p = tt
    all-AreStored (r ∷ rs) ((out, err), p) =
        ((packed-IsStored r.stdout_blob out, packed-IsStored r.stderr_blob err), all-AreStored rs p)

-- A bundle that was packed from a cache, each blob of which has the digest that it is filed under, is
-- accepted by any cache. To it are added exactly the lines of the records that were kept and could be
-- printed, in their order, and after it each blob that a kept record names is there, if it could be
-- read where it was packed. This holds if digests are hexadecimal, a printed manifest is read back
-- with its two versions, and no file of the bundle is over 8 MiB and one byte.
pub unpack_cache-pack_cache :
    (codec : Codec) (hex : (t : Text) → IsHex (codec.digest t))
    (back : (m : BundleManifest) (t : Text)
      → codec.print_manifest m ≡ some t
      → IsReadBack codec m t)
    (o : Origin) (servable_only : Bool) (records : List Record) (blobs : Dict Text)
    → IsAddressed codec.digest blobs
    → (es : List Entry) → (pack_cache codec o servable_only records blobs).1 ≡ some es
    → All IsFit es
    → (cache : Cache)
    → ((vo : Bool) → (unpack_cache codec vo (map some es) cache).failure ≡ none)
      × ((unpack_cache codec false (map some es) cache).cache.log
          ≡ cache.log ++ kept_lines codec servable_only records)
      × All
          (AreStored blobs (unpack_cache codec false (map some es) cache).cache.blobs)
          (kept_records servable_only records)
unfolding unpack_cache
unpack_cache-pack_cache codec hex back o so records blobs i es packed fit cache =
    let a = pack_cache-IsArchive codec o so records blobs es i packed in
    let whole = archive-IsWhole codec hex o so records blobs es back a fit in
    let accepted = λ (vo : Bool). (unpack_cache-IsWhole_iff codec vo (map some es) cache).1 whole in
    (
      accepted,
      close_unpack-added codec cache.log (on_entries codec false (map some es) _) (accepted false)
          ∙ ap (λ t. cache.log ++ closed_lines t)
              (archive_added codec hex o so records blobs es back a fit false _)
          ∙ ap (λ t. cache.log ++ t) (closed_lines-kept_lines codec so records),
      all-AreStored codec blobs _ a.blobs (parts-IsFit codec hex o so records blobs es back a fit).0
          (close_unpack-all-HasBlob codec false cache.log (on_entries codec false (map some es) _)
            a.blobs (archive_stored codec hex o so records blobs es back a fit _))
          (kept_records so records) a.are_packed,
    )
