-- ===== src/Daemon/Coalesce.antt =====
-- internal/hp/daemon.go: a request that waits and the record that the holder of the lease sends.
use fasthack.Prelude.{ℕ, ◌≡◌, refl, inl, inr, true, false, some, arith, Option-cases}
use fasthack.Text.{is_empty}
use fasthack.Text.Laws.{text_eq_refl}
use fasthack.Dict.{get}
use fasthack.Dict.Laws.{get-put}
use fasthack.Record.{Record}
use fasthack.Store.{Store, is_refuted, index, ingest, append, lookup}
use fasthack.Scope.{Repo}
use fasthack.Daemon.{Lease, LookupReq, Server, Moment}
use fasthack.Daemon.Leases.{is_closed}
use fasthack.Daemon.Decisions.{hit_resp, log_record}
use fasthack.Daemon.Lookup.{Outcome, answered, blocked, handle_lookup, resume_woken}
use fasthack.Daemon.Handlers.{stamp, handle_record}
use fasthack.Daemon.SingleFlight.{
  mark-leases, mark-store, release-closed, release-store, IsOneFlight, handle_lookup-IsOneFlight,
}

-- A record that may be served is found under its key once it is appended.
ingest-lookup :
    (s : Store) (r : Record)
    → r.servable ≡ true
    → is_empty r.key ≡ false
    → is_refuted r.verified ≡ false
    → lookup (ingest s r) r.key ≡ some r
unfolding ingest lookup index
ingest-lookup s r v k n = rw (v, k, n, get-put, text_eq_refl) refl

module _ (m : Moment) (rec : Record) (sv : Server) where
  record-lookup :
      m.disk ≡ true
      → rec.servable ≡ true
      → is_empty rec.key ≡ false
      → is_refuted rec.verified ≡ false
      → lookup (handle_record m rec sv).store rec.key ≡ some (stamp m rec)
  unfolding handle_record stamp log_record append
  record-lookup d v k n =
      rw (d, release-store, mark-store) (ingest-lookup sv.store (stamp m rec) v k n)

  record-closed :
      (l : Lease)
      → m.disk ≡ true
      → get sv.leases rec.key ≡ some l
      → is_closed (handle_record m rec sv).closed l.id ≡ true
  unfolding handle_record log_record
  record-closed l d e = rw d (release-closed _ rec.key l (rw mark-leases e))

blocked_lease :
    (req : LookupReq) (sv sv' : Server) (o : Outcome) (id : ℕ)
    → o ≡ blocked id
    → IsOneFlight req sv (o, sv')
    → (sv' ≡ sv) × (l : Lease) × (get sv.leases req.key ≡ some l) × (l.id ≡ id)
blocked_lease req sv sv' (answered resp) id e h = cc e
blocked_lease req sv sv' (blocked i) id e h = elim (Option-cases (get sv.leases req.key)) [
  | inl n ↦ absurd (cc (rw n at h.1))
  | inr (l, n) ↦ (h.0, l, n, ground (arith, n))
]

-- If `handleLookup` waits for a lease and the next thing is that a record under its key arrives which
-- may be served, then the channel it waits for is closed and it answers with the output of that record.
pub handle_lookup-handle_record :
    (repo : Repo) (m m' m'' : Moment) (req : LookupReq) (rec : Record) (sv : Server) (id waited : ℕ)
    → (handle_lookup repo m req sv).0 ≡ blocked id
    → m'.disk ≡ true
    → rec.key ≡ req.key
    → rec.servable ≡ true
    → is_empty rec.key ≡ false
    → is_refuted rec.verified ≡ false
    → let sv' = handle_record m' rec (handle_lookup repo m req sv).1 in
      (is_closed sv'.closed id ≡ true)
      × ((resume_woken repo m'' req waited sv').0 ≡ answered (hit_resp (stamp m' rec) waited))
unfolding resume_woken
handle_lookup-handle_record repo m m' m'' req rec sv id waited b d k v n r =
    let (same, l, held, i) =
      blocked_lease req sv (handle_lookup repo m req sv).1 _ id b
        (handle_lookup-IsOneFlight repo m req sv) in
    let closed = record-closed m' rec sv l d (rw k held) in
    let found = record-lookup m' rec sv d v n r in rw same (rw (← i) closed, rw (← k, found) refl)
