-- ===== src/Store.antt =====
-- internal/hp/store.go: the index over the log. A line of the log file is the record that it
-- decodes to, or nothing for a blank or a torn line; file names and blobs are not modelled. The
-- lock makes each method one step.
pub mod Index
pub mod Evict
pub mod Restart
mod Tests
use fasthack.Prelude.{
  Bool, true, false, not, ◌&&◌, Option, none, some, List, [], ◌∷◌, ◌++◌, if◌then◌else◌,
}
use fasthack.Text.{Text, text_eq, is_empty}
use fasthack.Dict.{Dict, get, put, remove, values}
use fasthack.Record.{Record}

-- Store
pub record Store : Type 0 where
  pub servable : Dict Record
  pub candidates : Dict (List Record)
  pub all : List Record

-- OpenStore, before the log is read
abbrev pub empty_store : Store
empty_store = record { servable = []; candidates = []; all = [] }

-- candKey
unfoldable pub cand_key : Text → Text → Text → Text
cand_key cmd_norm cwd_rel env_fp = cmd_norm ++ 0 ∷ cwd_rel ++ 0 ∷ env_fp

unfoldable pub cand_key_of : Record → Text
cand_key_of r = cand_key r.cmd_norm r.cwd_rel r.env_fp_before

-- A missing key reads as the nil slice.
abbrev pub or_nil : Option (List Record) → List Record
or_nil none = []
or_nil (some rs) = rs

-- candidates[ck]
unfoldable pub list_at : Dict (List Record) → Text → List Record
list_at m ck = or_nil (get m ck)

-- The loop that keeps the candidates with another key.
unfoldable pub without_key : Text → List Record → List Record
without_key key [] = []
without_key key (c ∷ cs) =
    let kept = without_key key cs in if text_eq c.key key then kept else c ∷ kept

-- if len(kept) == 0 { delete } else { write back }
unfoldable pub write_back : Dict (List Record) → Text → List Record → Dict (List Record)
write_back m ck [] = remove m ck
write_back m ck (c ∷ kept) = put m ck (c ∷ kept)

-- dropServable
unfoldable pub drop_servable : Store → Text → Store
drop_servable s key = elim (get s.servable key) [
  | none ↦ s
  | some r ↦ record s {
    servable = remove s.servable key;
    candidates =
        write_back s.candidates (cand_key_of r)
          (without_key key (list_at s.candidates (cand_key_of r)));
  }
]

-- r.Verified != nil && !*r.Verified
abbrev pub is_refuted : Option Bool → Bool
is_refuted none = false
is_refuted (some ok) = not ok

-- The two index writes of `ingest`.
unfoldable pub index : Store → Record → Store
index s r = record s {
  servable = put s.servable r.key r;
  candidates = put s.candidates (cand_key_of r) (list_at s.candidates (cand_key_of r) ++ r ∷ []);
}

-- ingest
unfoldable pub ingest : Store → Record → Store
ingest s r =
    let s' : Store = record s { all = s.all ++ r ∷ [] } in
    if r.servable && not (is_empty r.key)
    then (if is_refuted r.verified then drop_servable s' r.key else index s' r)
    else s'

-- One line of the loop of `replay`.
abbrev pub ingest_line : Store → Option Record → Store
ingest_line s none = s
ingest_line s (some r) = ingest s r

-- replay
unfoldable pub replay_from : Store → List (Option Record) → Store
replay_from s [] = s
replay_from s (line ∷ log) = replay_from (ingest_line s line) log

-- OpenStore
unfoldable pub open_store : List (Option Record) → Store
open_store log = replay_from empty_store log

-- Candidates
unfoldable pub candidates_of : Store → Text → Text → Text → List Record
candidates_of s cmd_norm cwd_rel env_fp = list_at s.candidates (cand_key cmd_norm cwd_rel env_fp)

-- Append, with the log file
unfoldable pub append : List (Option Record) × Store → Record → List (Option Record) × Store
append (log, s) r = (log ++ some r ∷ [], ingest s r)

-- Lookup
unfoldable pub lookup : Store → Text → Option Record
lookup s key = get s.servable key

-- Evict
unfoldable pub evict : Store → Text → Store
evict s key = drop_servable s key

-- ServableRecords
unfoldable pub servable_records : Store → List Record
servable_records s = values s.servable

-- Records
unfoldable pub records : Store → List Record
records s = s.all
