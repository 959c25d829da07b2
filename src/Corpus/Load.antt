-- ===== src/Corpus/Load.antt =====
-- internal/hp/corpus.go: parseCorpusRecord and LoadCorpusReport, over the files that the walk visits:
-- a name, and the record that it holds, or `none` where it cannot be read or is no JSON.
use fasthack.Prelude.{
  ℕ, ◌+◌, Bool, true, false, not, Option, none, some, List, [], ◌∷◌, ◌++◌, ltb, if◌then◌else◌,
  length,
}
use fasthack.Text.{Text, text, text_eq, is_empty}
use fasthack.Text.Cut.{has_suffix}
use fasthack.Text.Order.{text_less}
use fasthack.Dict.{Dict, get, put}
use fasthack.Sort.{sort_by}
use fasthack.Corpus.{CorpusStep, Trajectory}

-- CorpusLoad
pub record CorpusLoad : Type 0 where
  pub files : ℕ
  pub loaded : ℕ
  pub incomplete : ℕ
  pub no_steps : ℕ
  pub no_instance : ℕ
  pub malformed : ℕ

abbrev pub no_load : CorpusLoad
no_load = record {
  files = 0;
  loaded = 0;
  incomplete = 0;
  no_steps = 0;
  no_instance = 0;
  malformed = 0;
}

-- CorpusLoad.Skipped
unfoldable pub skipped : CorpusLoad → ℕ
skipped l = l.incomplete + l.no_steps + l.no_instance + l.malformed

-- recVerdict
pub data RecVerdict : Type 0 where
  rec_ok : Trajectory → RecVerdict
  rec_incomplete rec_no_steps rec_no_instance rec_malformed : RecVerdict

-- corpusRecord, by the fields that are read
pub record CorpusRecord : Type 0 where
  pub status : Text
  pub summary_id : Text
  pub source_id : Text
  pub metadata_submission : Text
  pub metadata_id : Text
  pub evidence_id : Text
  pub steps : List CorpusStep

-- firstNonEmpty
unfoldable pub first_non_empty : List Text → Text
first_non_empty [] = []
first_non_empty (v ∷ vals) = let rest = first_non_empty vals in if is_empty v then rest else v

abbrev pub is_nil {ℓ} : {A : Type ℓ} → List A → Bool
is_nil [] = true
is_nil (x ∷ xs) = false

unfoldable pub judge : Text → CorpusRecord → RecVerdict
judge path rec =
    let id =
      first_non_empty (rec.summary_id ∷ rec.evidence_id ∷ rec.source_id ∷ rec.metadata_id ∷ []) in
    if not (text_eq rec.status (text "complete"))
    then rec_incomplete
    else if is_nil rec.steps
    then rec_no_steps
    else if is_empty id
    then rec_no_instance
    else rec_ok (record {
      path = path;
      instance_id = id;
      submission = first_non_empty (rec.metadata_submission ∷ text "unknown" ∷ []);
      steps = rec.steps;
    })

-- parseCorpusRecord
unfoldable pub parse_corpus_record : Text → Option CorpusRecord → RecVerdict
parse_corpus_record path none = rec_malformed
parse_corpus_record path (some rec) = judge path rec

-- The `switch` in the walk, behind `load.Files++`.
unfoldable pub file_verdict :
    RecVerdict → CorpusLoad × List Trajectory → CorpusLoad × List Trajectory
file_verdict (rec_ok t) (l, ts) = (record l { loaded = l.loaded + 1 }, ts ++ t ∷ [])
file_verdict rec_incomplete (l, ts) = (record l { incomplete = l.incomplete + 1 }, ts)
file_verdict rec_no_steps (l, ts) = (record l { no_steps = l.no_steps + 1 }, ts)
file_verdict rec_no_instance (l, ts) = (record l { no_instance = l.no_instance + 1 }, ts)
file_verdict rec_malformed (l, ts) = (record l { malformed = l.malformed + 1 }, ts)

unfoldable pub one_file : CorpusLoad × List Trajectory → CorpusLoad × List Trajectory
one_file (l, ts) = (record l { files = l.files + 1 }, ts)

unfoldable pub load_files :
    List (Text × Option CorpusRecord) → CorpusLoad × List Trajectory → CorpusLoad × List Trajectory
load_files [] s = s
load_files ((path, rec) ∷ files) s = load_files files (
    if has_suffix (text ".json") path
    then file_verdict (parse_corpus_record path rec) (one_file s)
    else s)

-- LoadCorpusReport
unfoldable pub load_corpus_report : List (Text × Option CorpusRecord) → CorpusLoad × List Trajectory
load_corpus_report files = load_files files (no_load, [])

-- InstanceGroup
pub record InstanceGroup : Type 0 where
  pub instance_id : Text
  pub attempts : List Trajectory

unfoldable pub attempts_at : Dict (List Trajectory) → Text → List Trajectory
attempts_at by_id id = elim (get by_id id) [ none ↦ [] | some ts ↦ ts ]

unfoldable pub group_by_id : List Trajectory → Dict (List Trajectory) → Dict (List Trajectory)
group_by_id [] by_id = by_id
group_by_id (t ∷ ts) by_id =
    group_by_id ts (put by_id t.instance_id (attempts_at by_id t.instance_id ++ t ∷ []))

unfoldable pub attempt_before : Trajectory → Trajectory → Bool
attempt_before a b =
    if text_eq a.submission b.submission
    then text_less a.path b.path
    else text_less a.submission b.submission

unfoldable pub shared_groups : Dict (List Trajectory) → List InstanceGroup
shared_groups [] = []
shared_groups ((id, attempts) ∷ by_id) =
    let rest = shared_groups by_id in
    if ltb (length attempts) 2
    then rest
    else record { instance_id = id; attempts = sort_by attempt_before attempts } ∷ rest

unfoldable pub group_before : InstanceGroup → InstanceGroup → Bool
group_before a b = text_less a.instance_id b.instance_id

-- MultiAgentInstances
unfoldable pub multi_agent_instances : List Trajectory → List InstanceGroup
multi_agent_instances trajs = sort_by group_before (shared_groups (group_by_id trajs []))
