-- ===== src/Bundle/PackTests.antt =====
-- A record with its output, packed and unpacked.
use fasthack.Prelude.{
  ◌≡◌, ◌++◌, refl, inl, inr, true, false, Bool, Option, none, some, List, [], ◌∷◌, All, map, arith,
  ◌+◌, ◌%◌,
}
use fasthack.Text.{Text, codes, text, text_eq, is_empty, has_prefix}
use fasthack.Dict.{Dict, get, put}
use fasthack.Key.{key_version}
use fasthack.Record.{Record}
use fasthack.Hook.Flow.{hash_of, without_prefix}
use fasthack.Bundle.{BundleManifest, Codec, Entry, Cache}
use fasthack.Bundle.Pack.{
  need, kept, tar_file, add_blob, pack_blobs, add_line, pack_log, Origin, manifest_of, close_bundle,
  pack_cache,
}
use fasthack.Bundle.Unpack.{no_manifest, unpack_cache}
use fasthack.Bundle.Addressed.{IsAddressed, put-IsAddressed}
use fasthack.Bundle.Named.{IsHexDigit, IsHex}
use fasthack.Bundle.Needed.{kept_records}
use fasthack.Bundle.Packed.{kept_lines}
use fasthack.Bundle.RoundTrip.{AreStored, IsReadBack, unpack_cache-pack_cache}

-- A digest that is one digit longer than the text.
unfoldable hex_of : Text → Text
hex_of [] = 48 ∷ []
hex_of (c ∷ t) = (97 + c % 6) ∷ hex_of t

hex_of-IsHexDigit : (t : Text) → All IsHexDigit (hex_of t)
unfolding hex_of
hex_of-IsHexDigit [] = (inl (omega arith, omega arith), tt)
hex_of-IsHexDigit (c ∷ t) = (inr (omega arith, omega arith), hex_of-IsHexDigit t)

hex_of-not_empty : (t : Text) → is_empty (hex_of t) ≡ false
unfolding hex_of is_empty
hex_of-not_empty [] = refl
hex_of-not_empty (c ∷ t) = refl

hex_of-IsHex : (t : Text) → IsHex (hex_of t)
hex_of-IsHex t = record { not_empty = hex_of-not_empty t; digits = hex_of-IsHexDigit t }

abbrev read_versions : BundleManifest → Text → Option BundleManifest
read_versions old [] = none
read_versions old (v ∷ k) = some (record old { version = v; key_version = k })

-- A line is the command of its record, and a manifest is printed as its two versions.
abbrev line_codec : Codec
line_codec = record {
  digest = hex_of;
  print_record = λ r. some r.cmd;
  read_record = λ t. none;
  print_manifest = λ m. some (m.version ∷ m.key_version);
  read_manifest = read_versions;
}

versions-IsReadBack :
    (m : BundleManifest) (t : Text)
    → line_codec.print_manifest m ≡ some t
    → IsReadBack line_codec m t
versions-IsReadBack m [] h = absurd (cc h)
versions-IsReadBack m (v ∷ k) h =
    (record no_manifest { version = v; key_version = k }, refl, cc h, cc h)

abbrev run_of : Text → Text → Bool → Record
run_of cmd blob servable = record {
  v = 1;
  ts = 0;
  agent = [];
  cmd = cmd;
  cmd_norm = [];
  cwd_rel = [];
  tree_before = [];
  env_fp_before = [];
  tree_after = [];
  env_fp_after = [];
  key = [];
  policy = [];
  reason = [];
  decision = [];
  servable = servable;
  exit_code = 0;
  duration_ms = 0;
  stdout_blob = blob;
  stderr_blob = [];
  source_agent = [];
  verified = none;
  tier = 1;
  read_set = none;
}

-- One that is kept, with the digest of "hi", and one that is not.
abbrev two_runs : List Record
two_runs = run_of (codes "ls") (codes "sha256:cd0") true ∷ run_of (codes "date") [] false ∷ []

abbrev outputs : Dict Text
outputs = put [] (codes "cd0") (codes "hi")

abbrev origin : Origin
origin = record { goos = codes "linux"; arch = codes "amd64"; note = [] }

abbrev archive : List Entry
archive =
    tar_file (codes "blobs/cd0") (codes "hi")
    ∷ tar_file (codes "log.jsonl") (codes "ls\n")
    ∷ tar_file (codes "manifest.json") (1 ∷ codes "hs-v1")
    ∷ []

abbrev empty_cache : Cache
empty_cache = record { log = []; blobs = [] }

outputs-IsAddressed : IsAddressed hex_of outputs
unfolding get hex_of
outputs-IsAddressed =
    put-IsAddressed hex_of [] (record { named = λ id. tt }) (codes "cd0") (codes "hi") refl

packed_archive : (pack_cache line_codec origin true two_runs outputs).1 ≡ some archive
unfolding need kept tar_file add_blob pack_blobs add_line pack_log manifest_of close_bundle
    pack_cache text text_eq is_empty has_prefix get put key_version hash_of without_prefix
packed_archive = refl

unpack_cache-pack_cache_example :
    ((vo : Bool) → (unpack_cache line_codec vo (map some archive) empty_cache).failure ≡ none)
    × ((unpack_cache line_codec false (map some archive) empty_cache).cache.log
        ≡ [] ++ kept_lines line_codec true two_runs)
    × All
        (AreStored outputs
          (unpack_cache line_codec false (map some archive) empty_cache).cache.blobs)
        (kept_records true two_runs)
unfolding tar_file
unpack_cache-pack_cache_example =
    unpack_cache-pack_cache line_codec hex_of-IsHex versions-IsReadBack origin true two_runs outputs
      outputs-IsAddressed archive packed_archive (omega arith, (omega arith, (omega arith, tt)))
      empty_cache
