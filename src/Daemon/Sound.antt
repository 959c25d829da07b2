-- ===== src/Daemon/Sound.antt =====
-- The invariant of internal/hp/daemon.go, under every interleaving of its handlers.
use fasthack.Prelude.{
  ℕ, ◌≡◌, refl, inl, inr, Bool, true, false, not, ◌&&◌, Option, none, some, List, [], arith,
  Bool-cases, Option-cases, if◌then◌else◌,
}
use fasthack.Text.{Text, text_eq, is_empty}
use fasthack.Dict.{get}
use fasthack.Record.{Record, decision_miss}
use fasthack.Store.{append, evict, lookup}
use fasthack.Store.Index.{IsIndexed, ingest-IsIndexed, evict-IsIndexed, open_store-IsIndexed}
use fasthack.Scope.{Repo}
use fasthack.Daemon.{LookupReq, Server, Moment, new_server}
use fasthack.Daemon.Leases.{acquire, release, drop_lease, peer_lease, is_closed}
use fasthack.Daemon.Decisions.{log_record, emit_decision, emit_scoped_hit}
use fasthack.Daemon.Lookup.{
  Promotion, try_scope, miss, wait_phase, scope_phase, exact_phase, handle_lookup, woken_phase,
  resume_woken, resume_expired,
}
use fasthack.Daemon.Handlers.{
  VerifyVerdict, stamp, mark_unservable, handle_record, handle_release, verify_record, about,
  handle_verify,
}
use fasthack.Daemon.Held.{
  IsLeased, HasLeases, acquire-HasLeases, release-HasLeases, drop_lease-HasLeases,
}
use fasthack.Daemon.SingleFlight.{release-store}
use fasthack.Daemon.Served.{IsJustified, handle_lookup-IsJustified}
use fasthack.Daemon.Steps.{
  System, Step, looks_up, wakes, expires, records, releases, verifies, IsReachable, starts, goes_on,
}

-- The index is sound and the leases have channels of their own, which are open.
pub record IsSound (sv : Server) : Type 0 where
  pub indexed : IsIndexed sv.store
  pub leased : HasLeases sv

module _ (m : Moment) (sv : Server) (h : IsSound sv) where
  logged : (r : Record) → IsSound (log_record m sv r)
  unfolding log_record append
  logged r = elim (Bool-cases m.disk) [
    | inr d ↦ rw d h
    | inl d ↦ rw d (record { indexed = ingest-IsIndexed sv.store r h.indexed; leased = h.leased })
  ]

  emitted : (req : LookupReq) (d : Text) (o : Option Record) → IsSound (emit_decision m req d o sv)
  unfolding emit_decision
  emitted req d o = elim (Bool-cases (text_eq d decision_miss)) [
    | inl e ↦ rw e h
    | inr e ↦ rw e (logged _)
  ]

released : (sv : Server) (key : Text) → IsSound sv → IsSound (release sv key)
released sv key h = record {
  indexed = rw (release-store sv key) h.indexed;
  leased = release-HasLeases sv h.leased key;
}

marked : (r : Record) (sv : Server) → IsSound sv → IsSound (mark_unservable r sv)
unfolding mark_unservable
marked r sv h = elim (Bool-cases (not r.servable && not (is_empty r.key))) [
  | inl e ↦ rw e (record { indexed = h.indexed; leased = h.leased })
  | inr e ↦ rw e h
]

acquire-store :
    (sv : Server) (key agent : Text) (now : ℕ) → (acquire sv key agent now).store ≡ sv.store
unfolding acquire
acquire-store sv key agent now = elim (Option-cases (get sv.leases key)) [
  | inr (l, e) ↦ rw e refl
  | inl e ↦ rw e refl
]

drop_lease-store : (sv : Server) (key : Text) (id : ℕ) → (drop_lease sv key id).store ≡ sv.store
unfolding drop_lease
drop_lease-store sv key id = ground arith

dropped : (sv : Server) (key : Text) (id : ℕ) → IsSound sv → IsSound (drop_lease sv key id)
dropped sv key id h = record {
  indexed = rw (drop_lease-store sv key id) h.indexed;
  leased = drop_lease-HasLeases sv h.leased key id;
}

module _ (repo : Repo) (m : Moment) (req : LookupReq) (sv : Server) (h : IsSound sv) where
  missed : (waited : ℕ) → IsSound (miss repo m req waited sv).1
  unfolding miss
  missed waited =
      emitted m (acquire sv req.key req.agent m.now)
        (record {
          indexed = rw (acquire-store sv req.key req.agent m.now) h.indexed;
          leased = acquire-HasLeases sv h.leased req.key req.agent m.now;
        })
        req decision_miss none

  waits : (o : Option ℕ) → IsSound (wait_phase repo m req sv o).1
  waits none = missed 0
  waits (some id) = h

  scopes : (o : Option Promotion) → IsSound (scope_phase repo m req sv o).1
  unfolding emit_scoped_hit
  scopes none = waits (peer_lease sv req.key)
  scopes (some (c, dec, tier)) = logged m sv h _

  looks : (o : Option Record) → IsSound (exact_phase repo m req sv o).1
  looks none = scopes (try_scope repo req sv.store)
  looks (some r) = emitted m sv h req _ (some r)

  handle_lookup-IsSound : IsSound (handle_lookup repo m req sv).1
  unfolding handle_lookup
  handle_lookup-IsSound = by_serve req.serve
    where
      by_serve :
          (b : Bool)
          → IsSound
              (if b
                then exact_phase repo m req sv (lookup sv.store req.key)
                else miss repo m req 0 sv).1
      by_serve false = missed 0
      by_serve true = looks (lookup sv.store req.key)

  resume_woken-IsSound : (waited : ℕ) → IsSound (resume_woken repo m req waited sv).1
  unfolding resume_woken
  resume_woken-IsSound waited = woken (lookup sv.store req.key)
    where
      woken : (o : Option Record) → IsSound (woken_phase repo m req waited sv o).1
      woken none = missed waited
      woken (some r) = emitted m sv h req _ (some r)

module _ (m : Moment) (sv : Server) (h : IsSound sv) where
  handle_record-IsSound : (rec : Record) → IsSound (handle_record m rec sv)
  unfolding handle_record
  handle_record-IsSound rec = by_disk m.disk
    where
      by_disk :
          (b : Bool)
          → IsSound (
              if b
              then release (mark_unservable rec (log_record m sv (stamp m rec))) rec.key
              else sv)
      by_disk false = h
      by_disk true = released _ rec.key (marked rec _ (logged m sv h (stamp m rec)))

  handle_verify-IsSound : (v : VerifyVerdict) → IsSound (handle_verify m v sv)
  unfolding handle_verify
  handle_verify-IsSound v = by_ok v.ok
    where
      rec : Record
      rec = about (lookup sv.store v.key) (verify_record m v)

      by_ok :
          (b : Bool)
          → IsSound (
              if b
              then log_record m sv rec
              else log_record m (record sv { store = evict sv.store v.key }) rec)
      by_ok true = logged m sv h rec
      by_ok false =
          logged m (record sv { store = evict sv.store v.key })
            (record { indexed = evict-IsIndexed sv.store v.key h.indexed; leased = h.leased }) rec

new_server-IsSound : (log : List (Option Record)) → IsSound (new_server log)
unfolding new_server get is_closed
new_server-IsSound log = record { indexed = open_store-IsIndexed log; leased = empty }
  where
    empty : IsLeased [] [] 0
    empty = record {
      fresh = λ k l e. absurd (cc e);
      unique = λ k j l l' e e' i. absurd (cc e);
      still_open = λ k l e. absurd (cc e);
      old = λ id c. absurd (cc c);
    }

module _ (repo_at : Text → Repo) where
  step-IsSound : (s s' : System) → Step repo_at s s' → IsSound s.server → IsSound s'.server
  unfolding handle_release resume_expired
  step-IsSound _ _ (looks_up s m req) h =
      handle_lookup-IsSound (repo_at req.repo_root) m req s.server h
  step-IsSound _ _ (wakes server before later w m waited c) h =
      resume_woken-IsSound (repo_at w.req.repo_root) m w.req server h waited
  step-IsSound _ _ (expires server before later w m waited) h =
      missed (repo_at w.req.repo_root) m w.req (drop_lease server w.req.key w.id)
        (dropped server w.req.key w.id h) waited
  step-IsSound _ _ (records s m rec) h = handle_record-IsSound m s.server h rec
  step-IsSound _ _ (releases s key) h = released s.server key h
  step-IsSound _ _ (verifies s m v) h = handle_verify-IsSound m s.server h v

  -- In every state that a daemon gets into, by any sequence of its handlers, of waiting requests that
  -- go on and of timeouts, the index is sound, and each lease has a channel of its own, which is open
  -- as long as the lease is held.
  pub reachable-IsSound : (s : System) → IsReachable repo_at s → IsSound s.server
  reachable-IsSound _ (starts log) = new_server-IsSound log
  reachable-IsSound _ (goes_on s s' r step) = step-IsSound s s' step (reachable-IsSound s r)

  -- In every state that a daemon gets into, whatever `handleLookup` answers at once is a MISS or
  -- justified by a record that may be served.
  pub reachable-IsJustified :
      (s : System) (m : Moment) (req : LookupReq)
      → IsReachable repo_at s
      → IsJustified
          (repo_at req.repo_root)
          req
          (handle_lookup (repo_at req.repo_root) m req s.server).0
  reachable-IsJustified s m req r =
      handle_lookup-IsJustified (repo_at req.repo_root) m req s.server
        (reachable-IsSound s r).indexed
