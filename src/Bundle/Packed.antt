-- ===== src/Bundle/Packed.antt =====
-- internal/hp/bundle.go: the archive that PackCache writes.
use fasthack.Prelude.{
  ℕ, ◌+◌, ◌≡◌, refl, ◌∙◌, sym, Bool, true, false, Option, none, some, List, [], ◌∷◌, ◌++◌,
  append_assoc, append-nil, All, All-append, not, ◌&&◌, if◌then◌else◌,
}
use fasthack.Text.{Text, text}
use fasthack.Dict.{Dict, get}
use fasthack.Record.{Record}
use fasthack.Hook.Flow.{hash_of}
use fasthack.Bundle.{BundleStats, no_stats, Codec, Entry}
use fasthack.Bundle.Pack.{
  need, kept, tar_file, add_blob, pack_blobs, add_line, pack_log, Origin, manifest_of, close_bundle,
  pack_cache,
}
use fasthack.Bundle.Needed.{kept_records, kept-AreNeeded, ArePacked, all-ArePacked}
use fasthack.Bundle.Addressed.{HasDigest, IsAddressed}

-- The regular entry of a blob, named by the digest of its content.
abbrev pub IsBlob : Codec → Entry → Type 0
IsBlob codec e = (e.regular ≡ true) × (e.name ≡ text "blobs/" ++ codec.digest e.content)

unfoldable pub line_onto : Option Text → Text → Text
line_onto none rest = rest
line_onto (some line) rest = line ++ 10 ∷ rest

-- The lines of the records that are kept and can be printed.
unfoldable pub kept_lines : Codec → Bool → List Record → Text
kept_lines codec servable_only [] = []
kept_lines codec servable_only (r ∷ rs) =
    let rest = kept_lines codec servable_only rs in
    if servable_only && not r.servable then rest else line_onto (codec.print_record r) rest

-- An archive: its blobs, its log and its manifest.
pub record IsArchive (codec : Codec) (o : Origin) (servable_only : Bool) (records : List Record)
    (source : Dict Text) (es : List Entry) : Type 0 where
  pub blobs : List Entry
  pub manifest : Text
  pub stats : BundleStats
  pub are_blobs : All (IsBlob codec) blobs
  pub are_packed : All (ArePacked codec source blobs) (kept_records servable_only records)
  pub is_printed : codec.print_manifest (manifest_of o servable_only stats) ≡ some manifest
  pub in_order :
      es
      ≡ blobs
        ++ tar_file (text "log.jsonl") (kept_lines codec servable_only records)
          ∷ tar_file (text "manifest.json") manifest
          ∷ []

module _ (codec : Codec) where
  add_blob-IsBlob :
      (id : Text) (o : Option Text) (s : BundleStats × List Entry)
      → HasDigest codec.digest (hash_of id) o
      → All (IsBlob codec) s.1
      → All (IsBlob codec) (add_blob id o s).1
  unfolding add_blob tar_file
  add_blob-IsBlob id none s h a = a
  add_blob-IsBlob id (some content) s h a =
      All-append (IsBlob codec) s.1 _ a ((refl, rw h refl), tt)

  pack_blobs-IsBlob :
      (blobs : Dict Text) (ids : Dict Bool) (s : BundleStats × List Entry)
      → IsAddressed codec.digest blobs
      → All (IsBlob codec) s.1
      → All (IsBlob codec) (pack_blobs blobs ids s).1
  unfolding pack_blobs
  pack_blobs-IsBlob blobs [] s i a = a
  pack_blobs-IsBlob blobs ((id, b) ∷ ids) s i a =
      pack_blobs-IsBlob blobs ids _ i
        (add_blob-IsBlob id (get blobs (hash_of id)) s (i.named (hash_of id)) a)

  -- Every record, printed.
  abbrev lines : List Record → Text
  lines rs = kept_lines codec false rs

  pack_log-lines :
      (rs : List Record) (s : BundleStats × Text) → (pack_log codec rs s).1 ≡ s.1 ++ lines rs
  unfolding pack_log kept_lines line_onto add_line
  pack_log-lines [] s = rw append-nil refl
  pack_log-lines (r ∷ rs) s =
      rw (pack_log-lines rs (add_line (codec.print_record r) s)) (onto (codec.print_record r) s)
    where
      onto :
          (o : Option Text) (s : BundleStats × Text)
          → (add_line o s).1 ++ lines rs ≡ s.1 ++ line_onto o (lines rs)
      onto none s = refl
      onto (some line) (st, log) = rw (append_assoc, append_assoc) refl

  line_onto-append : (o : Option Text) (s t : Text) → line_onto o s ++ t ≡ line_onto o (s ++ t)
  unfolding line_onto
  line_onto-append none s t = refl
  line_onto-append (some line) s t = append_assoc line (10 ∷ s) t

  lines-append : (rs qs : List Record) → lines (rs ++ qs) ≡ lines rs ++ lines qs
  unfolding kept_lines
  lines-append [] qs = refl
  lines-append (r ∷ rs) qs =
      rw (lines-append rs qs, line_onto-append (codec.print_record r) (lines rs) (lines qs)) refl

  snoc :
      (rs : List Record) (r : Record) (rest : Text)
      → lines (rs ++ r ∷ []) ++ rest ≡ lines rs ++ line_onto (codec.print_record r) rest
  unfolding kept_lines
  snoc rs r rest =
      rw (lines-append rs (r ∷ []), append_assoc, line_onto-append (codec.print_record r) [] rest)
        refl

  lines_step :
      (so b : Bool) (r : Record) (rs : List Record) (skip s : List Record × Dict Bool × ℕ)
      → ((s : List Record × Dict Bool × ℕ)
          → lines (kept so rs s).0 ≡ lines s.0 ++ kept_lines codec so rs)
      → skip.0 ≡ s.0
      → (needed : Dict Bool)
      → lines (kept so rs (if b then skip else (s.0 ++ r ∷ [], needed, s.2))).0
        ≡ lines s.0
          ++ (if b
              then kept_lines codec so rs
              else line_onto (codec.print_record r) (kept_lines codec so rs))
  lines_step so true r rs skip s next same needed = rw (next skip, same) refl
  lines_step so false r rs skip s next same needed =
      next (s.0 ++ r ∷ [], needed, s.2) ∙ snoc s.0 r (kept_lines codec so rs)

  lines-kept :
      (so : Bool) (rs : List Record) (s : List Record × Dict Bool × ℕ)
      → lines (kept so rs s).0 ≡ lines s.0 ++ kept_lines codec so rs
  unfolding kept kept_lines
  lines-kept so [] s = rw append-nil refl
  lines-kept so (r ∷ rs) (keep, needed, skipped) =
      lines_step so (so && not r.servable) r rs (keep, needed, skipped + 1) (keep, needed, skipped)
        (lines-kept so rs) refl (need r.stderr_blob (need r.stdout_blob needed))

close_bundle-some :
    (st : BundleStats) (es fs : List Entry) (o : Option Text)
    → (close_bundle st es o).1 ≡ some fs
    → (m : Text) × (o ≡ some m) × (es ++ tar_file (text "manifest.json") m ∷ [] ≡ fs)
unfolding close_bundle
close_bundle-some st es fs none h = absurd (cc h)
close_bundle-some st es fs (some m) h = (m, refl, cc h)

ends_alike :
    (bs : List Entry) (log log' : Text) (last : Entry)
    → log ≡ log'
    → (bs ++ tar_file (text "log.jsonl") log ∷ []) ++ last ∷ []
      ≡ bs ++ tar_file (text "log.jsonl") log' ∷ last ∷ []
ends_alike bs log log' last e =
    rw e (append_assoc bs (tar_file (text "log.jsonl") log' ∷ []) (last ∷ []))

-- The archive, where the manifest can be printed.
pub pack_cache-IsArchive :
    (codec : Codec) (o : Origin) (servable_only : Bool) (records : List Record) (blobs : Dict Text)
    (es : List Entry)
    → IsAddressed codec.digest blobs
    → (pack_cache codec o servable_only records blobs).1 ≡ some es
    → IsArchive codec o servable_only records blobs es
unfolding pack_cache kept_lines
pack_cache-IsArchive codec o so records blobs es i h =
    let (keep, needed, skipped) = kept so records ([], [], 0) in
    let packed = pack_blobs blobs needed (record no_stats { skipped = skipped }, []) in
    let logged = pack_log codec keep (packed.0, []) in
    let (m, printed, same) =
      close_bundle-some logged.0 (packed.1 ++ tar_file (text "log.jsonl") logged.1 ∷ []) es
        (codec.print_manifest (manifest_of o so logged.0)) h in
    record {
      blobs = packed.1;
      manifest = m;
      stats = logged.0;
      are_blobs =
          pack_blobs-IsBlob codec blobs needed (record no_stats { skipped = skipped }, []) i tt;
      are_packed =
          all-ArePacked codec blobs needed (kept_records so records)
            (record no_stats { skipped = skipped }, []) i (kept-AreNeeded so records ([], [], 0));
      is_printed = printed;
      in_order =
          sym same
          ∙ ends_alike packed.1 logged.1 (kept_lines codec so records)
              (tar_file (text "manifest.json") m)
              (pack_log-lines codec keep (packed.0, []) ∙ lines-kept codec so records ([], [], 0));
    }
