-- ===== src/Bundle/Merged.antt =====
-- internal/hp/bundle.go: the log that UnpackCache adds from an archive of PackCache.
use fasthack.Prelude.{
  ℕ, ◌+◌, ◌≤◌, ◌≡◌, refl, inl, inr, Bool-cases, ap, ◌∙◌, Bool, true, false, Option, none, some,
  List, [], ◌∷◌, ◌++◌, arith, length, map, map-append, All, take-all, not, ◌&&◌, ◌||◌,
  if◌then◌else◌, ltb,
}
use fasthack.Text.{Text, text, text_eq, is_empty, has_prefix, ends_with}
use fasthack.Text.PathName.{
  clean, is_abs, split_parts, join_parts, clean_part, clean_parts, rev_onto,
}
use fasthack.Record.{Record}
use fasthack.Record.Output.{max_output_bytes}
use fasthack.Bundle.{BundleManifest, Codec, Entry}
use fasthack.Bundle.Pack.{tar_file}
use fasthack.Bundle.Unpack.{
  Failure, Unpacking, on_manifest, on_log, read_entry, is_unsafe, on_file, on_entry, then_rest,
  on_entries, stopped, close_unpack, closed_lines,
}
use fasthack.Bundle.Packed.{line_onto, kept_lines}

pub then_rest-none :
    (p : Option Failure × Unpacking) (rest : Unpacking → Option Failure × Unpacking)
    → p.0 ≡ none
    → then_rest p rest ≡ rest p.1
unfolding then_rest
then_rest-none (some f, u) rest h = absurd (cc h)
then_rest-none (none, u) rest h = refl

module _ (codec : Codec) (vo : Bool) where
  on_blob_file :
      (hash content : Text) (u : Unpacking)
      → (on_file codec vo (text "blobs/" ++ hash) content u).0 ≡ none
  unfolding on_file text text_eq has_prefix
  on_blob_file hash content u = refl

  pub safe_blob_name : (hash : Text) → is_unsafe (text "blobs/" ++ hash) ≡ false
  unfolding is_unsafe text has_prefix is_abs
  safe_blob_name hash = refl

  on_entry-blob :
      (e : Entry) (u : Unpacking) (hash : Text)
      → clean e.name ≡ text "blobs/" ++ hash
      → (on_entry codec vo e u).0 ≡ none
  unfolding on_entry read_entry
  on_entry-blob e u hash n = elim (Bool-cases e.regular) [
    | inr r ↦ rw r refl
    | inl r ↦ rw (r, n, safe_blob_name hash) (on_blob_file hash (read_entry e) u)
  ]

  on_entry-log :
      (log : Text) (u : Unpacking)
      → length log ≤ max_output_bytes + 1
      → ((on_entry codec vo (tar_file (text "log.jsonl") log) u).0 ≡ none)
        × ((on_entry codec vo (tar_file (text "log.jsonl") log) u).1.log_lines ≡ log)
  unfolding on_entry read_entry on_file on_log is_unsafe tar_file clean is_abs split_parts
      clean_parts clean_part rev_onto join_parts text is_empty text_eq has_prefix
  on_entry-log log u h = (refl, take-all (max_output_bytes + 1) log h)

  log_lines-on_manifest :
      (o : Option BundleManifest) (u : Unpacking) → (on_manifest o u).1.log_lines ≡ u.log_lines
  unfolding on_manifest
  log_lines-on_manifest none u = refl
  log_lines-on_manifest (some m) u = refl

  on_entry-manifest :
      (m : Text) (u : Unpacking)
      → (on_entry codec vo (tar_file (text "manifest.json") m) u).1.log_lines ≡ u.log_lines
  unfolding on_entry read_entry on_file on_log is_unsafe tar_file clean is_abs split_parts
      clean_parts clean_part rev_onto join_parts text is_empty text_eq has_prefix
  on_entry-manifest m u =
      log_lines-on_manifest
        (codec.read_manifest u.manifest (read_entry (tar_file (text "manifest.json") m))) u

  -- Blobs in front of the rest of an archive.
  behind_blobs :
      (bs : List Entry) (rest : List (Option Entry)) (u : Unpacking)
      → All (λ e. (hash : Text) × (clean e.name ≡ text "blobs/" ++ hash)) bs
      → (v : Unpacking) × (on_entries codec vo (map some bs ++ rest) u ≡ on_entries codec vo rest v)
  unfolding on_entries
  behind_blobs [] rest u b = (u, refl)
  behind_blobs (e ∷ bs) rest u ((hash, n), b) =
      let p = on_entry codec vo e u in
      let (v, more) = behind_blobs bs rest p.1 b in
      (
        v,
        then_rest-none p (on_entries codec vo (map some bs ++ rest)) (on_entry-blob e u hash n)
            ∙ more,
      )

  then_end : (p : Option Failure × Unpacking) → then_rest p (on_entries codec vo []) ≡ p
  unfolding then_rest on_entries
  then_end (some f, u) = refl
  then_end (none, u) = refl

  last_two :
      (log m : Text) (u : Unpacking)
      → length log ≤ max_output_bytes + 1
      → (on_entries codec vo
          (some (tar_file (text "log.jsonl") log) ∷ some (tar_file (text "manifest.json") m) ∷ [])
          u).1.log_lines
        ≡ log
  unfolding on_entries
  last_two log m u h =
      let p = on_entry codec vo (tar_file (text "log.jsonl") log) u in
      let (read, kept) = on_entry-log log u h in
      let q = on_entry codec vo (tar_file (text "manifest.json") m) p.1 in
      ap (λ (r : Option Failure × Unpacking). r.1.log_lines) (then_rest-none p _ read ∙ then_end q)
      ∙ on_entry-manifest m p.1
      ∙ kept

  -- An archive of blobs, a log and a manifest, in this order, leaves the lines of the log.
  pub on_entries-log_lines :
      (bs : List Entry) (log m : Text) (u : Unpacking)
      → All (λ e. (hash : Text) × (clean e.name ≡ text "blobs/" ++ hash)) bs
      → length log ≤ max_output_bytes + 1
      → (on_entries codec vo
          (map some
            (bs ++ tar_file (text "log.jsonl") log ∷ tar_file (text "manifest.json") m ∷ []))
          u).1.log_lines
        ≡ log
  on_entries-log_lines bs log m u b h =
      let two = tar_file (text "log.jsonl") log ∷ tar_file (text "manifest.json") m ∷ [] in
      let (v, same) = behind_blobs bs (map some two) u b in
      ap (λ (es : List (Option Entry)). (on_entries codec vo es u).1.log_lines)
        (map-append some bs two)
      ∙ ap (λ (r : Option Failure × Unpacking). r.1.log_lines) same
      ∙ last_two log m v h

pub close_unpack-added :
    (codec : Codec) (log : Text) (p : Option Failure × Unpacking)
    → (close_unpack codec false log p).failure ≡ none
    → (close_unpack codec false log p).cache.log ≡ log ++ closed_lines p.1.log_lines
unfolding close_unpack stopped
close_unpack-added codec log (some f, u) h = absurd (cc h)
close_unpack-added codec log (none, u) h = elim (Bool-cases (ltb 0 u.stats.rejected)) [
  | inl e ↦ absurd (cc (rw e at h))
  | inr e ↦ rw e refl
]

-- A text is empty or ends with a line break.
abbrev IsClosed : Text → Type 0
IsClosed t = (is_empty t || ends_with 10 t) ≡ true

closed_lines-IsClosed : (t : Text) → IsClosed t → closed_lines t ≡ t
unfolding closed_lines
closed_lines-IsClosed t h = ground arith

ends_with-append : (s : Text) (c : ℕ) (t : Text) → ends_with 10 (s ++ c ∷ t) ≡ ends_with 10 (c ∷ t)
unfolding ends_with
ends_with-append [] c t = refl
ends_with-append (a ∷ []) c t = refl
ends_with-append (a ∷ b ∷ s) c t = ends_with-append (b ∷ s) c t

break-IsClosed : (t : Text) → IsClosed t → ends_with 10 (10 ∷ t) ≡ true
unfolding ends_with is_empty
break-IsClosed [] h = refl
break-IsClosed (c ∷ t) h = h

line-IsClosed : (line t : Text) → IsClosed t → IsClosed (line ++ 10 ∷ t)
unfolding is_empty
line-IsClosed [] t h = break-IsClosed t h
line-IsClosed (a ∷ line) t h = ends_with-append (a ∷ line) 10 t ∙ break-IsClosed t h

line_onto-IsClosed : (o : Option Text) (t : Text) → IsClosed t → IsClosed (line_onto o t)
unfolding line_onto
line_onto-IsClosed none t h = h
line_onto-IsClosed (some line) t h = line-IsClosed line t h

module _ (codec : Codec) (servable_only : Bool) where
  branch-IsClosed :
      (b : Bool) (r : Record) (t : Text)
      → IsClosed t
      → IsClosed (if b then t else line_onto (codec.print_record r) t)
  branch-IsClosed true r t h = h
  branch-IsClosed false r t h = line_onto-IsClosed (codec.print_record r) t h

  kept_lines-IsClosed : (rs : List Record) → IsClosed (kept_lines codec servable_only rs)
  unfolding kept_lines is_empty
  kept_lines-IsClosed [] = refl
  kept_lines-IsClosed (r ∷ rs) =
      branch-IsClosed (servable_only && not r.servable) r (kept_lines codec servable_only rs)
        (kept_lines-IsClosed rs)

  pub closed_lines-kept_lines :
      (rs : List Record)
      → closed_lines (kept_lines codec servable_only rs) ≡ kept_lines codec servable_only rs
  closed_lines-kept_lines rs =
      closed_lines-IsClosed (kept_lines codec servable_only rs) (kept_lines-IsClosed rs)
