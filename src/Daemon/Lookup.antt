-- ===== src/Daemon/Lookup.antt =====
-- internal/hp/daemon.go: `handleLookup`, up to its wait and behind it.
use fasthack.Prelude.{
  ℕ, ◌-◌, ◌||◌, Option, none, some, List, [], ◌∷◌, length, drop, ltb, if◌then◌else◌,
}
use fasthack.Text.{text_eq, is_empty}
use fasthack.Record.{Record, decision_hit, decision_miss, decision_lease_wait}
use fasthack.Store.{Store, lookup, candidates_of}
use fasthack.Scope.{Repo, ScopeDecision}
use fasthack.Scope.Match.{scope_match_at}
use fasthack.Readset.Match.{scope_match_observed}
use fasthack.Daemon.{LookupReq, LookupResp, Server, Moment}
use fasthack.Daemon.Leases.{acquire, drop_lease, peer_lease}
use fasthack.Daemon.Decisions.{hit_resp, miss_resp, emit_decision, emit_scoped_hit}

-- A candidate, the decision that promotes it, and its tier.
abbrev pub Promotion : Type 0
Promotion = Record × ScopeDecision × ℕ

-- The last of the list first.
unfoldable pub newest_first : List Record → List Record → List Record
newest_first [] acc = acc
newest_first (r ∷ rs) acc = newest_first rs (r ∷ acc)

-- cands[len(cands)-maxCandidates:]
unfoldable pub last_candidates : List Record → List Record
last_candidates cands = if ltb 8 (length cands) then drop (length cands - 8) cands else cands

module _ (repo : Repo) (req : LookupReq) where
  -- What one candidate's trees and read set make of it.
  unfoldable pub promote : Record → Option Promotion
  promote c =
      let dec = scope_match_at repo c.tree_before req.tree req.cmd req.cwd_rel in
      let obs = scope_match_observed repo c.tree_before req.tree c.read_set in
      if dec.promoted then some (c, dec, 1) else if obs.promoted then some (c, obs, 2) else none

  abbrev pub or_next : Option Promotion → Option Promotion → Option Promotion
  or_next none later = later
  or_next (some p) later = some p

  -- The loop of `tryScope`; the reason of the last refusal, which its caller drops, is left out.
  unfoldable pub try_candidates : List Record → Option Promotion
  try_candidates [] = none
  try_candidates (c ∷ cands) =
      let later = try_candidates cands in
      if text_eq c.tree_before req.tree then later else or_next (promote c) later

  -- tryScope
  unfoldable pub try_scope : Store → Option Promotion
  try_scope s =
      if is_empty req.repo_root || is_empty req.tree
      then none
      else try_candidates
          (newest_first (last_candidates (candidates_of s req.cmd_norm req.cwd_rel req.env_fp)) [])

-- The handler has answered, or waits for the channel of a lease.
pub data Outcome : Type 0 where
  answered : LookupResp → Outcome
  blocked : ℕ → Outcome

module _ (repo : Repo) (m : Moment) (req : LookupReq) where
  -- A MISS, with the lease taken.
  unfoldable pub miss : ℕ → Server → Outcome × Server
  miss waited sv = (
    answered (miss_resp waited),
    emit_decision m req decision_miss none (acquire sv req.key req.agent m.now),
  )

  abbrev pub wait_phase : Server → Option ℕ → Outcome × Server
  wait_phase sv none = miss 0 sv
  wait_phase sv (some id) = (blocked id, sv)

  abbrev pub scope_phase : Server → Option Promotion → Outcome × Server
  scope_phase sv none = wait_phase sv (peer_lease sv req.key)
  scope_phase sv (some (rec, dec, tier)) = (
    answered (record (hit_resp rec 0) { tier = tier; scope_reason = dec.reason }),
    emit_scoped_hit m req rec dec tier sv,
  )

  abbrev pub exact_phase : Server → Option Record → Outcome × Server
  exact_phase sv none = scope_phase sv (try_scope repo req sv.store)
  exact_phase sv (some rec) =
      (answered (hit_resp rec 0), emit_decision m req decision_hit (some rec) sv)

  -- handleLookup, up to the wait
  unfoldable pub handle_lookup : Server → Outcome × Server
  handle_lookup sv = if req.serve then exact_phase sv (lookup sv.store req.key) else miss 0 sv

  abbrev pub woken_phase : ℕ → Server → Option Record → Outcome × Server
  woken_phase waited sv none = miss waited sv
  woken_phase waited sv (some rec) =
      (answered (hit_resp rec waited), emit_decision m req decision_lease_wait (some rec) sv)

  -- handleLookup, behind the wait: the channel was closed
  unfoldable pub resume_woken : ℕ → Server → Outcome × Server
  resume_woken waited sv = woken_phase waited sv (lookup sv.store req.key)

  -- handleLookup, behind the wait: the lease timed out
  unfoldable pub resume_expired : ℕ → ℕ → Server → Outcome × Server
  resume_expired id waited sv = miss waited (drop_lease sv req.key id)
