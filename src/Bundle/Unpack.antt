-- ===== src/Bundle/Unpack.antt =====
-- internal/hp/bundle.go: UnpackCache.
use fasthack.Prelude.{
  ℕ, ◌+◌, Bool, false, not, ◌&&◌, ◌||◌, Option, none, some, List, [], ◌∷◌, ◌++◌, ltb, ◌==◌,
  if◌then◌else◌, length, take,
}
use fasthack.Text.{Text, text, text_eq, is_empty, has_prefix, is_blank, ends_with}
use fasthack.Text.PathName.{clean, is_abs}
use fasthack.Dict.{Dict, get, put}
use fasthack.Key.{key_version}
use fasthack.Record.{Record}
use fasthack.Record.Output.{max_output_bytes}
use fasthack.Hook.Flow.{without_prefix}
use fasthack.Bundle.{BundleManifest, BundleStats, no_stats, bundle_version, Codec, Entry, Cache}

-- The errors.
pub data Failure : Type 0 where
  bad_archive unreadable_manifest : Failure
  unsafe_path : Text → Failure
  wrong_format : ℕ → Failure
  wrong_key_version : Text → Failure
  mismatched : ℕ → Failure

-- The variables of the loop, and the blobs on the disk.
pub record Unpacking : Type 0 where
  pub stats : BundleStats
  pub manifest : BundleManifest
  pub log_lines : Text
  pub blobs : Dict Text

abbrev pub no_manifest : BundleManifest
no_manifest = record {
  version = 0;
  key_version = [];
  source_goos = [];
  source_arch = [];
  records = 0;
  blobs = 0;
  blob_bytes = 0;
  servable_only = false;
  note = [];
}

unfoldable pub on_manifest : Option BundleManifest → Unpacking → Option Failure × Unpacking
on_manifest none u = (some unreadable_manifest, u)
on_manifest (some m) u = (
  if not (m.version == bundle_version)
      then some (wrong_format m.version)
      else if not (text_eq m.key_version key_version)
      then some (wrong_key_version m.key_version)
      else none,
  record u { manifest = m },
)

unfoldable pub reject : Unpacking → Unpacking
reject u = record u { stats = record u.stats { rejected = u.stats.rejected + 1 } }

unfoldable pub count_blob : Text → Unpacking → Unpacking
count_blob content u = record u {
  stats = record u.stats {
    blobs = u.stats.blobs + 1;
    blob_bytes = u.stats.blob_bytes + length content;
  };
}

-- os.Rename(tmp, dst), unless the blob is there
unfoldable pub store_blob : Text → Text → Option Text → Unpacking → Unpacking
store_blob want content (some old) u = u
store_blob want content none u = record u { blobs = put u.blobs want content }

unfoldable pub on_blob : Codec → Bool → Text → Text → Unpacking → Unpacking
on_blob codec verify_only want content u =
    if not (text_eq (codec.digest content) want)
    then reject u
    else if verify_only
    then count_blob content u
    else store_blob want content (get u.blobs want) (count_blob content u)

unfoldable pub on_log : Text → Unpacking → Unpacking
on_log content u = record u { log_lines = content }

-- io.ReadAll(io.LimitReader(tr, MaxOutputBytes+1))
unfoldable pub read_entry : Entry → Text
read_entry e = take (max_output_bytes + 1) e.content

unfoldable pub is_unsafe : Text → Bool
is_unsafe name = has_prefix (text "..") name || is_abs name

-- The `switch` over the name.
unfoldable pub on_file : Codec → Bool → Text → Text → Unpacking → Option Failure × Unpacking
on_file codec verify_only name content u =
    if text_eq name (text "manifest.json")
    then on_manifest (codec.read_manifest u.manifest content) u
    else if text_eq name (text "log.jsonl")
    then (none, on_log content u)
    else if has_prefix (text "blobs/") name
    then (none, on_blob codec verify_only (without_prefix (text "blobs/") name) content u)
    else (none, u)

-- The body of the loop.
unfoldable pub on_entry : Codec → Bool → Entry → Unpacking → Option Failure × Unpacking
on_entry codec verify_only e u =
    if not e.regular
    then (none, u)
    else if is_unsafe (clean e.name)
    then (some (unsafe_path e.name), u)
    else on_file codec verify_only (clean e.name) (read_entry e) u

unfoldable pub then_rest :
    Option Failure × Unpacking
    → (Unpacking → Option Failure × Unpacking)
    → Option Failure × Unpacking
then_rest (some f, u) rest = (some f, u)
then_rest (none, u) rest = rest u

-- The loop over the archive, in which an entry that cannot be read is `none`.
unfoldable pub on_entries :
    Codec → Bool → List (Option Entry) → Unpacking → Option Failure × Unpacking
on_entries codec verify_only [] u = (none, u)
on_entries codec verify_only (none ∷ es) u = (some bad_archive, u)
on_entries codec verify_only (some e ∷ es) u =
    then_rest (on_entry codec verify_only e u) (on_entries codec verify_only es)

-- strings.Split(s, "\n"), with the line that is open
unfoldable pub split_lines : Text → Text → List Text
split_lines [] line = line ∷ []
split_lines (c ∷ s) line =
    let next = line ∷ split_lines s [] in
    let same = split_lines s (line ++ c ∷ []) in if c == 10 then next else same

unfoldable pub count_line : Option Record → BundleStats → BundleStats
count_line none st = record st { skipped = st.skipped + 1 }
count_line (some r) st = record st { records = st.records + 1 }

unfoldable pub count_lines : Codec → List Text → BundleStats → BundleStats
count_lines codec [] st = st
count_lines codec (line ∷ lines) st =
    count_lines codec lines (if is_blank line then st else count_line (codec.read_record line) st)

-- The lines with a line break at their end.
unfoldable pub closed_lines : Text → Text
closed_lines log = if not (is_empty log) && not (ends_with 10 log) then log ++ 10 ∷ [] else log

-- What `UnpackCache` returns, and the cache that it leaves.
pub record Unpacked : Type 0 where
  pub failure : Option Failure
  pub stats : BundleStats
  pub manifest : BundleManifest
  pub cache : Cache

unfoldable pub stopped : Text → Option Failure → Unpacking → Unpacked
stopped log failure u = record {
  failure = failure;
  stats = u.stats;
  manifest = u.manifest;
  cache = record { log = log; blobs = u.blobs };
}

-- Behind the loop.
unfoldable pub close_unpack : Codec → Bool → Text → Option Failure × Unpacking → Unpacked
close_unpack codec verify_only log (some f, u) = stopped log (some f) u
close_unpack codec verify_only log (none, u) =
    if ltb 0 u.stats.rejected
    then stopped log (some (mismatched u.stats.rejected)) u
    else stopped (if verify_only then log else log ++ closed_lines u.log_lines) none
        (record u { stats = count_lines codec (split_lines u.log_lines []) u.stats })

-- UnpackCache, of an archive whose compression can be read
unfoldable pub unpack_cache : Codec → Bool → List (Option Entry) → Cache → Unpacked
unpack_cache codec verify_only es cache = close_unpack codec verify_only cache.log (
    on_entries codec verify_only es
      (record { stats = no_stats; manifest = no_manifest; log_lines = []; blobs = cache.blobs }))
