-- ===== src/Bundle.antt =====
-- internal/hp/bundle.go: caches packed into an archive. A file is its bytes; JSON, SHA-256 and the
-- two container formats are parameters, and reads and writes of the disk do not fail.
pub mod Pack
pub mod Unpack
mod Accepted
mod Refused
mod Exact
mod Needed
mod Stored
mod PackTests
mod Merged
mod RoundTrip
mod Packed
mod Named
mod Addressed
mod Tests
use fasthack.Prelude.{ℕ, Bool, Option}
use fasthack.Text.{Text}
use fasthack.Dict.{Dict}
use fasthack.Record.{Record}

-- BundleVersion
abbrev pub bundle_version : ℕ
bundle_version = 1

-- BundleManifest, without its time
pub record BundleManifest : Type 0 where
  pub version : ℕ
  pub key_version : Text
  pub source_goos : Text
  pub source_arch : Text
  pub records : ℕ
  pub blobs : ℕ
  pub blob_bytes : ℕ
  pub servable_only : Bool
  pub note : Text

-- BundleStats
pub record BundleStats : Type 0 where
  pub records : ℕ
  pub blobs : ℕ
  pub blob_bytes : ℕ
  pub skipped : ℕ
  pub rejected : ℕ

abbrev pub no_stats : BundleStats
no_stats = record { records = 0; blobs = 0; blob_bytes = 0; skipped = 0; rejected = 0 }

-- json.Marshal and json.Unmarshal, and the hexadecimal SHA-256 of some bytes. A manifest is read into a
-- variable that has a value already, which a field that is not there keeps; what a failed read leaves
-- in it is left out.
pub record Codec : Type 0 where
  pub digest : Text → Text
  pub print_record : Record → Option Text
  pub read_record : Text → Option Record
  pub print_manifest : BundleManifest → Option Text
  pub read_manifest : BundleManifest → Text → Option BundleManifest

-- An entry of a tar archive.
pub record Entry : Type 0 where
  pub regular : Bool
  pub name : Text
  pub content : Text

-- A cache directory: its log file, and its blobs by their hash.
pub record Cache : Type 0 where
  pub log : Text
  pub blobs : Dict Text
