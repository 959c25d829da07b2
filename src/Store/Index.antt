-- ===== src/Store/Index.antt =====
-- internal/hp/store.go: the invariant of the index.
use fasthack.Prelude.{
  ◌≡◌, ◌⊎◌, inl, inr, Bool, true, false, not, ◌&&◌, Option, none, some, List, [], ◌∷◌, ◌++◌, arith,
  if◌then◌else◌, Bool-cases, Option-cases, All, All-append,
}
use fasthack.Text.{Text, text_eq, is_empty}
use fasthack.Text.Laws.{text_eq_sound}
use fasthack.Dict.{Dict, get, put, remove}
use fasthack.Dict.Laws.{get-put, get-remove}
use fasthack.Record.{Record}
use fasthack.Store.{
  Store, empty_store, cand_key_of, list_at, without_key, write_back, drop_servable, is_refuted,
  index, ingest, replay_from, open_store, evict,
}

-- What is indexed may be served: it was recorded as servable, under a key, and not refuted.
pub record MayServe (r : Record) : Type 0 where
  pub servable : r.servable ≡ true
  pub keyed : is_empty r.key ≡ false
  pub standing : is_refuted r.verified ≡ false

-- A record in the list of candidates under `ck` belongs there and may be served.
pub record IsCandidate (ck : Text) (r : Record) : Type 0 where
  pub place : cand_key_of r ≡ ck
  pub served : MayServe r

abbrev pub ServedAt : Text → Option Record → Type 0
ServedAt key none = Unit
ServedAt key (some r) = (r.key ≡ key) × MayServe r

pub record IsIndexed (s : Store) : Type 0 where
  pub served : (key : Text) → ServedAt key (get s.servable key)
  pub placed : (ck : Text) → All (IsCandidate ck) (list_at s.candidates ck)

module _ (m : Dict (List Record)) (ck j : Text) where
  pub list_at-put :
      (rs : List Record) → list_at (put m ck rs) j ≡ (if text_eq ck j then rs else list_at m j)
  unfolding list_at
  list_at-put rs = rw get-put (ground arith)

  list_at-remove : list_at (remove m ck) j ≡ (if text_eq ck j then [] else list_at m j)
  unfolding list_at
  list_at-remove = rw get-remove (ground arith)

  pub list_at-write_back :
      (kept : List Record)
      → list_at (write_back m ck kept) j ≡ (if text_eq ck j then kept else list_at m j)
  unfolding write_back
  list_at-write_back [] = list_at-remove
  list_at-write_back (c ∷ kept) = list_at-put (c ∷ kept)

module _ (P : Record → Type 0) where
  pub All-without_key : (key : Text) (rs : List Record) → All P rs → All P (without_key key rs)
  unfolding without_key
  All-without_key key [] h = tt
  All-without_key key (c ∷ cs) h = elim (Bool-cases (text_eq c.key key)) [
    | inl e ↦ rw e (All-without_key key cs h.1)
    | inr e ↦ rw e (h.0, All-without_key key cs h.1)
  ]

module _ (s : Store) (key : Text) where
  pub drop_servable-none : get s.servable key ≡ none → drop_servable s key ≡ s
  unfolding drop_servable
  drop_servable-none n = rw (n, drop_servable)

  pub drop_servable-some :
      (r : Record)
      → get s.servable key ≡ some r
      → drop_servable s key ≡ record s {
        servable = remove s.servable key;
        candidates =
            write_back s.candidates
              (cand_key_of r)
              (without_key key (list_at s.candidates (cand_key_of r)));
      }
  unfolding drop_servable
  drop_servable-some r n = rw (n, drop_servable)

module _ (s : Store) (i : IsIndexed s) (key : Text) where
  drop-served : (j : Text) → ServedAt j (get (drop_servable s key).servable j)
  drop-served j = elim (Option-cases (get s.servable key)) [
    | inl n ↦ rw (drop_servable-none s key n) (i.served j)
    | inr (r, n) ↦ rw (drop_servable-some s key r n, get-remove) ((removed (text_eq key j)))
  ]
    where
      removed : (b : Bool) → ServedAt j (if b then none else get s.servable j)
      removed true = tt
      removed false = i.served j

  drop-placed : (ck : Text) → All (IsCandidate ck) (list_at (drop_servable s key).candidates ck)
  drop-placed ck = elim (Option-cases (get s.servable key)) [
    | inl n ↦ rw (drop_servable-none s key n) (i.placed ck)
    | inr (r, n) ↦ rw (drop_servable-some s key r n, list_at-write_back) (kept r)
  ]
    where
      kept :
          (r : Record)
          → All (IsCandidate ck) (
              if text_eq (cand_key_of r) ck
              then without_key key (list_at s.candidates (cand_key_of r))
              else list_at s.candidates ck)
      kept r = elim (Bool-cases (text_eq (cand_key_of r) ck)) [
        | inl e ↦ rw e (
            rw (text_eq_sound (cand_key_of r) ck e)
              (All-without_key (IsCandidate ck) key (list_at s.candidates ck) (i.placed ck)))
        | inr e ↦ rw e (i.placed ck)
      ]

  drop-IsIndexed : IsIndexed (drop_servable s key)
  drop-IsIndexed = record { served = drop-served; placed = drop-placed }

module _ (s : Store) (i : IsIndexed s) (r : Record) (ok : MayServe r) where
  index-served : (j : Text) → ServedAt j (get (index s r).servable j)
  unfolding index
  index-served j = rw get-put (added (Bool-cases (text_eq r.key j)))
    where
      added :
          (text_eq r.key j ≡ true) ⊎ (text_eq r.key j ≡ false)
          → ServedAt j (if text_eq r.key j then some r else get s.servable j)
      added (inl e) = rw e (text_eq_sound r.key j e, ok)
      added (inr e) = rw e (i.served j)

  index-placed : (ck : Text) → All (IsCandidate ck) (list_at (index s r).candidates ck)
  unfolding index
  index-placed ck = rw list_at-put (added (Bool-cases (text_eq (cand_key_of r) ck)))
    where
      added :
          (text_eq (cand_key_of r) ck ≡ true) ⊎ (text_eq (cand_key_of r) ck ≡ false)
          → All (IsCandidate ck) (
              if text_eq (cand_key_of r) ck
              then list_at s.candidates (cand_key_of r) ++ r ∷ []
              else list_at s.candidates ck)
      added (inr e) = rw e (i.placed ck)
      added (inl e) =
          let same = text_eq_sound (cand_key_of r) ck e in
          rw e (
            rw same (
              All-append (IsCandidate ck) (list_at s.candidates ck) (r ∷ []) (i.placed ck)
                (record { place = same; served = ok }, tt)))

  index-IsIndexed : IsIndexed (index s r)
  index-IsIndexed = record { served = index-served; placed = index-placed }

logged-IsIndexed :
    (s : Store) (r : Record) → IsIndexed s → IsIndexed (record s { all = s.all ++ r ∷ [] })
logged-IsIndexed s r i = record { served = i.served; placed = i.placed }

-- A record in the log, servable or not, refuted or not, keeps the index sound.
pub ingest-IsIndexed : (s : Store) (r : Record) → IsIndexed s → IsIndexed (ingest s r)
unfolding ingest
ingest-IsIndexed s r i = elim (Bool-cases (r.servable && not (is_empty r.key))) [
  | inr e ↦ rw e (logged-IsIndexed s r i)
  | inl e ↦ elim (Bool-cases (is_refuted r.verified)) [
    | inl f ↦
        rw (e, f)
          (drop-IsIndexed (record s { all = s.all ++ r ∷ [] }) (logged-IsIndexed s r i) r.key)
    | inr f ↦
        rw (e, f)
          (index-IsIndexed (record s { all = s.all ++ r ∷ [] }) (logged-IsIndexed s r i) r
            (record { servable = ground arith; keyed = ground arith; standing = f }))
  ]
]

pub evict-IsIndexed : (s : Store) (key : Text) → IsIndexed s → IsIndexed (evict s key)
unfolding evict
evict-IsIndexed s key i = drop-IsIndexed s i key

replay_from-IsIndexed :
    (s : Store) (log : List (Option Record)) → IsIndexed s → IsIndexed (replay_from s log)
unfolding replay_from
replay_from-IsIndexed s [] i = i
replay_from-IsIndexed s (none ∷ log) i = replay_from-IsIndexed s log i
replay_from-IsIndexed s (some r ∷ log) i =
    replay_from-IsIndexed (ingest s r) log (ingest-IsIndexed s r i)

empty-IsIndexed : IsIndexed empty_store
unfolding get list_at
empty-IsIndexed = record { served = λ key. tt; placed = λ ck. tt }

-- Whatever the log holds, what the opened store serves under a key has that key, and it and every
-- candidate, which stands under its own candidate key, were recorded as servable and not refuted.
pub open_store-IsIndexed : (log : List (Option Record)) → IsIndexed (open_store log)
unfolding open_store
open_store-IsIndexed log = replay_from-IsIndexed empty_store log empty-IsIndexed
