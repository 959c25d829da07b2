-- ===== src/Daemon/Restarts.antt =====
-- internal/hp/daemon.go over internal/hp/store.go: what a restart of the daemon reads back.
use fasthack.Prelude.{
  ◌≡◌, ◌∙◌, refl, sym, inl, inr, Bool, true, false, not, ◌&&◌, Option, none, some, Bool-cases,
  Option-cases, if◌then◌else◌, subst,
}
use fasthack.Text.{Text, is_empty, text_eq}
use fasthack.Dict.{get}
use fasthack.Record.{Record}
use fasthack.Store.{Store, ingest, open_store, append, lookup, evict}
use fasthack.Store.Evict.{lookup-evict}
use fasthack.Store.Restart.{append-open_store}
use fasthack.Daemon.{Server, Moment}
use fasthack.Daemon.Leases.{release}
use fasthack.Daemon.Decisions.{log_record}
use fasthack.Daemon.Handlers.{
  VerifyVerdict, stamp, mark_unservable, handle_record, verify_record, about, handle_verify,
}

-- The store is the one that a restart would read from the log.
abbrev pub IsCurrent : Server → Type 0
IsCurrent sv = sv.store ≡ open_store sv.log

log_record-IsCurrent :
    (m : Moment) (sv : Server) (r : Record) → IsCurrent sv → IsCurrent (log_record m sv r)
unfolding log_record
log_record-IsCurrent m sv r c = elim (Bool-cases m.disk) [
  | inr d ↦ rw d c
  | inl d ↦ rw d (appended sv.store c)
]
  where
    appended :
        (s : Store)
        → s ≡ open_store sv.log
        → (append (sv.log, s) r).1 ≡ open_store (append (sv.log, s) r).0
    appended s e = rw e (append-open_store sv.log r)

release-IsCurrent : (sv : Server) (key : Text) → IsCurrent sv → IsCurrent (release sv key)
unfolding release
release-IsCurrent sv key c = elim (Option-cases (get sv.leases key)) [
  | inr (l, e) ↦ rw e c
  | inl e ↦ rw e c
]

mark-IsCurrent : (r : Record) (sv : Server) → IsCurrent sv → IsCurrent (mark_unservable r sv)
unfolding mark_unservable
mark-IsCurrent r sv c = elim (Bool-cases (not r.servable && not (is_empty r.key))) [
  | inl e ↦ rw e c
  | inr e ↦ rw e c
]

-- What `handleRecord` leaves is what a restart reads back, whether or not the log could be written.
pub handle_record-IsCurrent :
    (m : Moment) (rec : Record) (sv : Server) → IsCurrent sv → IsCurrent (handle_record m rec sv)
unfolding handle_record
handle_record-IsCurrent m rec sv c = elim (Bool-cases m.disk) [
  | inr d ↦ rw d c
  | inl d ↦
      let logged = log_record-IsCurrent m sv (stamp m rec) c in
      let kept =
        release-IsCurrent (mark_unservable rec (log_record m sv (stamp m rec))) rec.key
          (mark-IsCurrent rec (log_record m sv (stamp m rec)) logged) in
      subst
        (λ b.
          IsCurrent (
            if b
            then release (mark_unservable rec (log_record m sv (stamp m rec))) rec.key
            else sv))
        (sym d) kept
]

-- A record that is not servable leaves what is served alone, now and at a restart.
ingest-unservable :
    (s : Store) (r : Record) (k : Text) → r.servable ≡ false → lookup (ingest s r) k ≡ lookup s k
unfolding ingest lookup
ingest-unservable s r k e = rw e refl

log_record-unservable :
    (m : Moment) (sv : Server) (r : Record) (k : Text)
    → r.servable ≡ false
    → (lookup (log_record m sv r).store k ≡ lookup sv.store k)
      × (lookup (open_store (log_record m sv r).log) k ≡ lookup (open_store sv.log) k)
unfolding log_record append
log_record-unservable m sv r k e = elim (Bool-cases m.disk) [
  | inr d ↦ rw d (refl, refl)
  | inl d ↦ rw d (
    ingest-unservable sv.store r k e,
    rw (← append-open_store sv.log r) (ingest-unservable (open_store sv.log) r k e),
  )
]

about-unservable :
    (m : Moment) (v : VerifyVerdict) (o : Option Record)
    → (about o (verify_record m v)).servable ≡ false
unfolding verify_record
about-unservable m v none = refl
about-unservable m v (some src) = refl

-- A divergence that `handleVerify` is told of ends the serving of its key, and leaves every other key
-- alone, in the running daemon; but the log that it leaves opens a store that serves under every key
-- what the log served before, the evicted record among it.
pub handle_verify-restart :
    (m : Moment) (v : VerifyVerdict) (sv : Server) (k : Text)
    → v.ok ≡ false
    → (lookup (handle_verify m v sv).store k
        ≡ (if text_eq v.key k then none else lookup sv.store k))
      × (lookup (open_store (handle_verify m v sv).log) k ≡ lookup (open_store sv.log) k)
unfolding handle_verify
handle_verify-restart m v sv k e = by_ok v.ok e
  where
    rec : Record
    rec = about (lookup sv.store v.key) (verify_record m v)

    evicted : Server
    evicted = record sv { store = evict sv.store v.key }

    by_ok :
        (b : Bool)
        → b ≡ false
        → (lookup (if b then log_record m sv rec else log_record m evicted rec).store k
            ≡ (if text_eq v.key k then none else lookup sv.store k))
          × (lookup (open_store (if b then log_record m sv rec else log_record m evicted rec).log) k
              ≡ lookup (open_store sv.log) k)
    by_ok true h = cc h
    by_ok false h =
        let (now, later) =
          log_record-unservable m evicted rec k (about-unservable m v (lookup sv.store v.key)) in
        (now ∙ lookup-evict sv.store v.key k, later)
