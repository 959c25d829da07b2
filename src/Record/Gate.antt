-- ===== src/Record/Gate.antt =====
-- cmd/hindsight/record.go: the purity gate of `cmdRecord`.
mod Tests
use fasthack.Prelude.{
  ℕ, ◌≤◌, ◌≡◌, ◌↔◌, refl, Bool, true, false, not, ◌&&◌, ◌||◌, Option, none, some, arith, ltb,
  if◌then◌else◌,
}
use fasthack.Text.{Text, text, text_eq, is_empty}
use fasthack.Text.Laws.{text_eq_sound, text_eq_complete}
use fasthack.Policy.Heads.{serve, to_string}
use fasthack.Key.{State, equal}

-- What the gate looks at: the flags of the run, the state before (from the command line) and after
-- (`none` where it could not be measured), the ids of the blobs (empty where one was not written),
-- the duration and its floor.
pub record Run : Type 0 where
  pub policy : Text
  pub truncated : Bool
  pub timed_out : Bool
  pub before : State
  pub after : Option State
  pub stdout_blob : Text
  pub stderr_blob : Text
  pub duration_ms : ℕ
  pub floor : ℕ

-- The measurement after the run.
unfoldable pub unchanged : State → Option State → Bool
unchanged before none = false
unchanged before (some after) = equal before after && after.env_complete

-- The value of `servable` that is put into the record.
unfoldable pub servable_at : Run → Bool
servable_at r =
    text_eq r.policy (to_string serve)
    && not r.truncated
    && not r.timed_out
    && unchanged r.before r.after

-- rec.Servable when the record is sent. Without a workspace nothing is written, so the blobs are
-- empty and the duration is not looked at.
unfoldable pub is_servable : Run → Bool
is_servable r =
    servable_at r
    && not (is_empty r.stdout_blob || is_empty r.stderr_blob)
    && not (ltb 0 r.floor && ltb r.duration_ms r.floor)

-- What a servable record stands for.
pub record IsPure (r : Run) (after : State) : Type 0 where
  pub measured : r.after ≡ some after
  pub same_tree : r.before.tree ≡ after.tree
  pub same_env : r.before.env_fp ≡ after.env_fp
  pub complete : after.env_complete ≡ true
  pub classified : r.policy ≡ to_string serve
  pub whole : (r.truncated ≡ false) × (r.timed_out ≡ false)
  pub stored : (is_empty r.stdout_blob ≡ false) × (is_empty r.stderr_blob ≡ false)
  pub worthwhile : r.floor ≤ r.duration_ms

unchanged_after :
    (before : State) (o : Option State)
    → unchanged before o ≡ true
    → (after : State) × (o ≡ some after)
      × (before.tree ≡ after.tree)
      × (before.env_fp ≡ after.env_fp)
      × (after.env_complete ≡ true)
unfolding unchanged equal
unchanged_after before none h = cc h
unchanged_after before (some after) h = (
  after,
  refl,
  ground (arith, text_eq_sound before.tree after.tree),
  ground (arith, text_eq_sound before.env_fp after.env_fp),
  ground arith,
)

is_servable-IsPure : (r : Run) → is_servable r ≡ true → (after : State) × IsPure r after
unfolding is_servable servable_at
is_servable-IsPure r h =
    let (after, m, t, e, c) = unchanged_after r.before r.after (ground arith) in
    (
      after,
      record {
        measured = m;
        same_tree = t;
        same_env = e;
        complete = c;
        classified = text_eq_sound r.policy (to_string serve) (ground arith);
        whole = ground arith;
        stored = ground arith;
        worthwhile = ground arith;
      },
    )

IsPure-is_servable : (r : Run) (after : State) → IsPure r after → is_servable r ≡ true
unfolding is_servable servable_at unchanged equal
IsPure-is_servable r after p = ground (
  arith,
  text_eq_complete r.policy (to_string serve) p.classified,
  text_eq_complete r.before.tree after.tree p.same_tree,
  text_eq_complete r.before.env_fp after.env_fp p.same_env,
)

-- A record is servable exactly if the command has the policy SERVE, its output was neither cut nor its
-- time limit reached, both blobs were stored, it took at least the floor, and it left the tree and the
-- environment, both measured and the environment complete, as they were.
pub is_servable_iff : (r : Run) → (is_servable r ≡ true) ↔ ((after : State) × IsPure r after)
is_servable_iff r = (is_servable-IsPure r, λ h. IsPure-is_servable r h.0 h.1)
