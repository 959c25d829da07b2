-- ===== src/Store/Tests.antt =====
-- A log, the store that it opens, and what an eviction and a restart make of it.
use fasthack.Prelude.{
  if◌then◌else◌, Bool, refl, true, false, Option, none, some, List, [], ◌∷◌, All,
}
use fasthack.Text.{Text, codes, text, text_eq, is_empty}
use fasthack.Dict.{get, put, remove}
use fasthack.Record.{Record}
use fasthack.Store.{
  Store, or_nil, cand_key, cand_key_of, list_at, without_key, write_back, drop_servable, index,
  ingest, replay_from, open_store, append, lookup, evict,
}
use fasthack.Store.Index.{IsIndexed, open_store-IsIndexed}
use fasthack.Store.Evict.{HasOtherKey, StandsWith, evict-HasOtherKey}

abbrev blank_record : Record
blank_record = record {
  v = 1;
  ts = 0;
  agent = [];
  cmd = [];
  cmd_norm = [];
  cwd_rel = [];
  tree_before = [];
  env_fp_before = [];
  tree_after = [];
  env_fp_after = [];
  key = [];
  policy = [];
  reason = [];
  decision = [];
  servable = false;
  exit_code = 0;
  duration_ms = 0;
  stdout_blob = [];
  stderr_blob = [];
  source_agent = [];
  verified = none;
  tier = 0;
  read_set = none;
}

abbrev pub pytest_run : Record
pytest_run = record blank_record {
  key = codes "k1";
  cmd_norm = codes "pytest";
  cwd_rel = codes ".";
  servable = true;
}

abbrev pub ls_run : Record
ls_run = record blank_record { key = codes "k2"; cmd_norm = codes "cat a"; servable = true }

abbrev pub small_log : List (Option Record)
small_log = some pytest_run ∷ none ∷ some ls_run ∷ []

open_store-IsIndexed_example : IsIndexed (open_store small_log)
open_store-IsIndexed_example = open_store-IsIndexed small_log

unfoldable run_store : List (Option Record) → Store
unfolding text text_eq is_empty get put remove cand_key cand_key_of list_at without_key write_back
    drop_servable index ingest replay_from open_store append lookup evict
run_store log = open_store log

one_stands :
    (b : Bool)
    → All (StandsWith pytest_run (codes "k1")) (or_nil (if b then some (pytest_run ∷ []) else none))
one_stands true = (λ e. refl, tt)
one_stands false = tt

stands :
    (ck : Text)
    → All
        (StandsWith pytest_run (codes "k1"))
        (list_at (open_store (some pytest_run ∷ [])).candidates ck)
unfolding run_store
stands ck = one_stands (text_eq (cand_key_of pytest_run) ck)

evict-HasOtherKey_example : All (HasOtherKey (codes "k1")) (
    list_at
      (evict (open_store (some pytest_run ∷ [])) (codes "k1")).candidates
      (cand_key_of pytest_run))
unfolding run_store
evict-HasOtherKey_example =
    evict-HasOtherKey (open_store (some pytest_run ∷ [])) (codes "k1") pytest_run
      (open_store-IsIndexed (some pytest_run ∷ [])) refl stands (cand_key_of pytest_run)
