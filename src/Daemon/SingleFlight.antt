-- ===== src/Daemon/SingleFlight.antt =====
-- Single flight in internal/hp/daemon.go: who waits, for what, and who is woken.
use fasthack.Prelude.{
  ℕ, ◌≡◌, ◌⊎◌, refl, sym, inl, inr, Bool, true, false, Option, none, some, arith, Bool-cases,
  Option-cases, if◌then◌else◌,
}
use fasthack.Text.{Text, text_eq}
use fasthack.Text.Laws.{text_eq_refl, text_eq_sound}
use fasthack.Dict.{get}
use fasthack.Dict.Laws.{get-put, get-remove}
use fasthack.Record.{Record, decision_miss}
use fasthack.Store.{lookup}
use fasthack.Scope.{Repo}
use fasthack.Daemon.{Lease, LookupReq, Server, Moment}
use fasthack.Daemon.Leases.{acquire, release, is_true, id_of, peer_lease, is_closed}
use fasthack.Daemon.Decisions.{miss_resp, log_record, emit_decision, emit_scoped_hit}
use fasthack.Daemon.Lookup.{
  Promotion, try_scope, Outcome, answered, blocked, miss, wait_phase, scope_phase, exact_phase,
  handle_lookup,
}
use fasthack.Daemon.Handlers.{mark_unservable}

-- Logging and marking leave the leases alone.
log_record-leases : (m : Moment) (sv : Server) (r : Record) → (log_record m sv r).leases ≡ sv.leases
unfolding log_record
log_record-leases m sv r = ground arith

log_record-closed : (m : Moment) (sv : Server) (r : Record) → (log_record m sv r).closed ≡ sv.closed
unfolding log_record
log_record-closed m sv r = ground arith

pub mark-leases : (r : Record) (sv : Server) → (mark_unservable r sv).leases ≡ sv.leases
unfolding mark_unservable
mark-leases r sv = ground arith

mark-closed : (r : Record) (sv : Server) → (mark_unservable r sv).closed ≡ sv.closed
unfolding mark_unservable
mark-closed r sv = ground arith

pub mark-store : (r : Record) (sv : Server) → (mark_unservable r sv).store ≡ sv.store
unfolding mark_unservable
mark-store r sv = ground arith

module _ (sv : Server) (key : Text) where
  pub release-leases :
      (j : Text) → get (release sv key).leases j ≡ (if text_eq key j then none else get sv.leases j)
  unfolding release
  release-leases j = elim (Option-cases (get sv.leases key)) [
    | inr (l, e) ↦ rw e (get-remove sv.leases key j)
    | inl e ↦ rw e (free (Bool-cases (text_eq key j)) e)
  ]
    where
      free :
          (text_eq key j ≡ true) ⊎ (text_eq key j ≡ false)
          → get sv.leases key ≡ none
          → get sv.leases j ≡ (if text_eq key j then none else get sv.leases j)
      free (inl t) n = rw (t, sym (text_eq_sound key j t)) n
      free (inr t) n = rw t refl

  pub release-closed :
      (l : Lease) → get sv.leases key ≡ some l → is_closed (release sv key).closed l.id ≡ true
  unfolding release is_closed
  release-closed l e = rw e (ground arith)

  pub release-store : (release sv key).store ≡ sv.store
  unfolding release
  release-store = elim (Option-cases (get sv.leases key)) [
    | inr (l, e) ↦ rw e refl
    | inl e ↦ rw e refl
  ]

-- Somebody holds the lease.
abbrev pub IsHeld : Server → Text → Type 0
IsHeld sv key = (l : Lease) × (get sv.leases key ≡ some l)

acquire-IsHeld : (sv : Server) (key agent : Text) (now : ℕ) → IsHeld (acquire sv key agent now) key
unfolding acquire
acquire-IsHeld sv key agent now = elim (Option-cases (get sv.leases key)) [
  | inr (l, e) ↦ rw e (l, e)
  | inl e ↦ rw e (record { agent = agent; at = now; id = sv.next }, rw (get-put, text_eq_refl) refl)
]

-- A blocked request changed nothing and waits for the lease under its key, which no record answers
-- yet; a MISS leaves the lease held; any other answer leaves the leases as they were.
abbrev pub IsOneFlight : LookupReq → Server → Outcome × Server → Type 0
IsOneFlight req sv (blocked id, sv') =
    (sv' ≡ sv)
    × (id_of (get sv.leases req.key) ≡ some id)
    × (is_true (get sv.unservable req.key) ≡ false)
    × (lookup sv.store req.key ≡ none)
IsOneFlight req sv (answered resp, sv') =
    ((resp ≡ miss_resp resp.waited_ms) × IsHeld sv' req.key) ⊎ (sv'.leases ≡ sv.leases)

module _ (repo : Repo) (m : Moment) (req : LookupReq) (sv : Server) where
  pub miss-IsHeld : (waited : ℕ) → IsHeld (miss repo m req waited sv).1 req.key
  unfolding miss emit_decision
  miss-IsHeld waited = rw text_eq_refl (acquire-IsHeld sv req.key req.agent m.now)

  miss-IsOneFlight : (waited : ℕ) → IsOneFlight req sv (miss repo m req waited sv)
  unfolding miss miss_resp
  miss-IsOneFlight waited = inl (refl, miss-IsHeld waited)

  wait-IsOneFlight :
      (o : Option ℕ)
      → peer_lease sv req.key ≡ o
      → lookup sv.store req.key ≡ none
      → IsOneFlight req sv (wait_phase repo m req sv o)
  unfolding peer_lease
  wait-IsOneFlight none e n = miss-IsOneFlight 0
  wait-IsOneFlight (some id) e n = (refl, ground arith, ground arith, n)

  scope-IsOneFlight :
      (o : Option Promotion)
      → lookup sv.store req.key ≡ none
      → IsOneFlight req sv (scope_phase repo m req sv o)
  unfolding emit_scoped_hit
  scope-IsOneFlight none n = wait-IsOneFlight (peer_lease sv req.key) refl n
  scope-IsOneFlight (some (c, dec, tier)) n = inr (log_record-leases m sv _)

  emit-leases : (d : Text) (o : Option Record) → (emit_decision m req d o sv).leases ≡ sv.leases
  unfolding emit_decision
  emit-leases d o = elim (Bool-cases (text_eq d decision_miss)) [
    | inl e ↦ rw e refl
    | inr e ↦ rw e (log_record-leases m sv _)
  ]

  exact-IsOneFlight :
      (o : Option Record)
      → lookup sv.store req.key ≡ o
      → IsOneFlight req sv (exact_phase repo m req sv o)
  exact-IsOneFlight none n = scope-IsOneFlight (try_scope repo req sv.store) n
  exact-IsOneFlight (some r) n = inr (emit-leases _ _)

-- `handleLookup` waits only for the holder of the lease under its key, when no record has the key and
-- the key is not known to be unservable, and then has changed nothing; when it answers MISS the lease
-- is held, by the caller if it was free, so that the next caller of that key waits.
pub handle_lookup-IsOneFlight :
    (repo : Repo) (m : Moment) (req : LookupReq) (sv : Server)
    → IsOneFlight req sv (handle_lookup repo m req sv)
unfolding handle_lookup
handle_lookup-IsOneFlight repo m req sv = by_serve req.serve
  where
    by_serve :
        (b : Bool)
        → IsOneFlight req sv (
            if b then exact_phase repo m req sv (lookup sv.store req.key) else miss repo m req 0 sv)
    by_serve false = miss-IsOneFlight repo m req sv 0
    by_serve true = exact-IsOneFlight repo m req sv (lookup sv.store req.key) refl
