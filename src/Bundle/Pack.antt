-- ===== src/Bundle/Pack.antt =====
-- internal/hp/bundle.go: PackCache, without the errors of the writer.
use fasthack.Prelude.{
  ℕ, ◌+◌, Bool, true, not, ◌&&◌, Option, none, some, List, [], ◌∷◌, ◌++◌, if◌then◌else◌, length,
}
use fasthack.Text.{Text, text, is_empty}
use fasthack.Dict.{Dict, get, put}
use fasthack.Key.{key_version}
use fasthack.Record.{Record}
use fasthack.Hook.Flow.{hash_of}
use fasthack.Bundle.{BundleManifest, BundleStats, no_stats, bundle_version, Codec, Entry}

unfoldable pub need : Text → Dict Bool → Dict Bool
need b needed = if is_empty b then needed else put needed b true

-- keep, needed and the number that is skipped
unfoldable pub kept : Bool → List Record → List Record × Dict Bool × ℕ → List Record × Dict Bool × ℕ
kept servable_only [] s = s
kept servable_only (r ∷ rs) (keep, needed, skipped) = kept servable_only rs (
    if servable_only && not r.servable
    then (keep, needed, skipped + 1)
    else (keep ++ r ∷ [], need r.stderr_blob (need r.stdout_blob needed), skipped))

-- writeTarFile
unfoldable pub tar_file : Text → Text → Entry
tar_file name content = record { regular = true; name = name; content = content }

unfoldable pub add_blob : Text → Option Text → BundleStats × List Entry → BundleStats × List Entry
add_blob id none (st, es) = (record st { skipped = st.skipped + 1 }, es)
add_blob id (some content) (st, es) = (
  record st { blobs = st.blobs + 1; blob_bytes = st.blob_bytes + length content },
  es ++ tar_file (text "blobs/" ++ hash_of id) content ∷ [],
)

-- The blobs that are needed and can be read.
unfoldable pub pack_blobs :
    Dict Text → Dict Bool → BundleStats × List Entry → BundleStats × List Entry
pack_blobs blobs [] s = s
pack_blobs blobs ((id, needed) ∷ ids) s =
    pack_blobs blobs ids (add_blob id (get blobs (hash_of id)) s)

unfoldable pub add_line : Option Text → BundleStats × Text → BundleStats × Text
add_line none s = s
add_line (some line) (st, log) = (record st { records = st.records + 1 }, log ++ line ++ 10 ∷ [])

-- logBuf
unfoldable pub pack_log : Codec → List Record → BundleStats × Text → BundleStats × Text
pack_log codec [] s = s
pack_log codec (r ∷ rs) s = pack_log codec rs (add_line (codec.print_record r) s)

-- What the build and the caller bring to the manifest.
pub record Origin : Type 0 where
  pub goos : Text
  pub arch : Text
  pub note : Text

unfoldable pub manifest_of : Origin → Bool → BundleStats → BundleManifest
manifest_of o servable_only st = record {
  version = bundle_version;
  key_version = key_version;
  source_goos = o.goos;
  source_arch = o.arch;
  records = st.records;
  blobs = st.blobs;
  blob_bytes = st.blob_bytes;
  servable_only = servable_only;
  note = o.note;
}

unfoldable pub close_bundle :
    BundleStats → List Entry → Option Text → BundleStats × Option (List Entry)
close_bundle st es none = (st, none)
close_bundle st es (some manifest) =
    (st, some (es ++ tar_file (text "manifest.json") manifest ∷ []))

-- PackCache; the archive is `none` where the manifest cannot be printed
unfoldable pub pack_cache :
    Codec → Origin → Bool → List Record → Dict Text → BundleStats × Option (List Entry)
pack_cache codec o servable_only records blobs =
    let (keep, needed, skipped) = kept servable_only records ([], [], 0) in
    let (st, es) = pack_blobs blobs needed (record no_stats { skipped = skipped }, []) in
    let (st', log) = pack_log codec keep (st, []) in
    close_bundle st' (es ++ tar_file (text "log.jsonl") log ∷ [])
      (codec.print_manifest (manifest_of o servable_only st'))
