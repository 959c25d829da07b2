-- ===== src/Bundle/Tests.antt =====
-- A bundle with one blob, in parts.
use fasthack.Prelude.{◌≡◌, ◌↔◌, ◌≢◌, refl, true, false, Option, none, some, List, [], ◌∷◌, All}
use fasthack.Text.{Text, codes, text, text_eq, is_empty, has_prefix, is_blank, is_space, ends_with}
use fasthack.Text.PathName.{
  clean, is_abs, split_parts, join_parts, clean_part, clean_parts, rev_onto,
}
use fasthack.Dict.{get, put}
use fasthack.Key.{key_version}
use fasthack.Hook.Flow.{without_prefix}
use fasthack.Bundle.{BundleManifest, Codec, Entry, Cache}
use fasthack.Bundle.Unpack.{
  on_manifest, reject, count_blob, store_blob, on_blob, on_log, read_entry, is_unsafe, on_file,
  on_entry, then_rest, on_entries, split_lines, count_line, count_lines, closed_lines, Unpacked,
  stopped, close_unpack, no_manifest, unpack_cache,
}
use fasthack.Bundle.Accepted.{IsWhole}
use fasthack.Bundle.Exact.{unpack_cache-IsWhole_iff}
use fasthack.Bundle.Addressed.{IsAddressed}
use fasthack.Bundle.Stored.{HasBlob}
use fasthack.Bundle.Refused.{unpack_cache_refused_stored}

-- A manifest of the tests is its version in front of its key version, and what is left out is kept.
abbrev read_over : BundleManifest → Text → Option BundleManifest
read_over old [] = some old
read_over old (v ∷ []) = some (record old { version = v })
read_over old (v ∷ c ∷ k) = some (record old { version = v; key_version = c ∷ k })

-- The digest of the tests is the text itself, and no line is a record.
abbrev codec : Codec
codec = record {
  digest = λ t. t;
  print_record = λ r. none;
  read_record = λ t. none;
  print_manifest = λ m. none;
  read_manifest = read_over;
}

abbrev file : Text → Text → Option Entry
file name content = some (record { regular = true; name = name; content = content })

abbrev old_cache : Cache
old_cache = record { log = codes "old\n"; blobs = [] }

unfoldable run_unpack : List (Option Entry) → Unpacked
unfolding text text_eq is_empty has_prefix is_blank is_space ends_with clean is_abs split_parts
    join_parts clean_part clean_parts rev_onto get put key_version without_prefix on_manifest reject
    count_blob store_blob on_blob on_log read_entry is_unsafe on_file on_entry then_rest on_entries
    split_lines count_line count_lines closed_lines stopped close_unpack unpack_cache
run_unpack es = unpack_cache codec false es old_cache

abbrev parts : List (Option Entry)
parts = file (codes "blobs/ab") (codes "ab") ∷ file (codes "log.jsonl") (codes "new") ∷ []

-- Nothing asks for the manifest: a bundle without one is accepted, and its log is added.
no_manifest_asked :
    (unpack_cache codec false parts old_cache).cache
    ≡ record { log = codes "old\nnew\n"; blobs = (codes "ab", codes "ab") ∷ [] }
unfolding run_unpack
no_manifest_asked = refl

abbrev blob_ab : Entry
blob_ab = record { regular = true; name = codes "blobs/ab"; content = codes "ab" }

-- A blob in its place, one that is forged, and a log.
abbrev forged : List (Option Entry)
forged = file (codes "blobs/cd") (codes "ef") ∷ file (codes "log.jsonl") (codes "new") ∷ []

climbs : (unpack_cache codec false (file (codes "a/../../b") [] ∷ []) old_cache).failure ≢ none
unfolding run_unpack
climbs h = cc h

-- A manifest that leaves everything out keeps the versions of the one before it, and is accepted.
abbrev two_manifests : List (Option Entry)
two_manifests =
    file (codes "manifest.json") (1 ∷ codes "hs-v1") ∷ file (codes "manifest.json") [] ∷ parts

kept_versions : (unpack_cache codec false two_manifests old_cache).failure ≡ none
unfolding run_unpack
kept_versions = refl

first_left_out :
    (unpack_cache codec false (file (codes "manifest.json") [] ∷ []) old_cache).failure ≢ none
unfolding run_unpack
first_left_out h = cc h

unpack_cache-IsWhole_iff_example :
    (unpack_cache codec false two_manifests old_cache).failure ≡ none
    ↔ IsWhole codec no_manifest two_manifests
unpack_cache-IsWhole_iff_example = unpack_cache-IsWhole_iff codec false two_manifests old_cache

empty-IsAddressed : IsAddressed codec.digest []
unfolding get
empty-IsAddressed = record { named = λ id. tt }

unpack_cache_refused_stored_example :
    ((unpack_cache codec false (some blob_ab ∷ forged) old_cache).cache.log ≡ old_cache.log)
    × IsAddressed codec.digest
        (unpack_cache codec false (some blob_ab ∷ forged) old_cache).cache.blobs
    × All
        (λ e.
          HasBlob
            (codec.digest (read_entry e))
            (unpack_cache codec false (some blob_ab ∷ forged) old_cache).cache.blobs)
        (blob_ab ∷ [])
unfolding run_unpack
unpack_cache_refused_stored_example =
    unpack_cache_refused_stored codec (blob_ab ∷ []) forged old_cache empty-IsAddressed
      ((refl, refl), tt) (λ h. cc h)
