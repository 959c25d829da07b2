-- ===== src/Daemon/Steps.antt =====
-- internal/hp/daemon.go as a system: the server with the requests that wait in it, under every
-- interleaving of its handlers.
use fasthack.Prelude.{ℕ, ◌≡◌, true, Option, List, [], ◌∷◌, ◌++◌}
use fasthack.Text.{Text}
use fasthack.Record.{Record}
use fasthack.Scope.{Repo}
use fasthack.Daemon.{LookupReq, Server, Moment, new_server}
use fasthack.Daemon.Leases.{is_closed}
use fasthack.Daemon.Lookup.{Outcome, answered, blocked, handle_lookup, resume_woken, resume_expired}
use fasthack.Daemon.Handlers.{VerifyVerdict, handle_record, handle_release, handle_verify}

-- A request that waits, and the lease that it waits for.
pub record Waiter : Type 0 where
  pub req : LookupReq
  pub id : ℕ

pub record System : Type 0 where
  pub server : Server
  pub waiting : List Waiter

-- What the outcome of `handleLookup` does to the requests that wait.
abbrev pub joined : LookupReq → Outcome → List Waiter → List Waiter
joined req (answered resp) waiting = waiting
joined req (blocked id) waiting = record { req = req; id = id } ∷ waiting

-- One handler runs, or one waiting request goes on, at some moment. `repo_at` is the disk and git
-- below a repository root.
pub data Step (repo_at : Text → Repo) : System → System → Type 0 where
  looks_up :
      (s : System) (m : Moment) (req : LookupReq)
      → Step repo_at s (record {
        server = (handle_lookup (repo_at req.repo_root) m req s.server).1;
        waiting = joined req (handle_lookup (repo_at req.repo_root) m req s.server).0 s.waiting;
      })
  wakes :
      (server : Server) (before later : List Waiter) (w : Waiter) (m : Moment) (waited : ℕ)
      → is_closed server.closed w.id ≡ true
      → Step repo_at
          (record { server = server; waiting = before ++ w ∷ later })
          (record {
            server = (resume_woken (repo_at w.req.repo_root) m w.req waited server).1;
            waiting = before ++ later;
          })
  expires :
      (server : Server) (before later : List Waiter) (w : Waiter) (m : Moment) (waited : ℕ)
      → Step repo_at
          (record { server = server; waiting = before ++ w ∷ later })
          (record {
            server = (resume_expired (repo_at w.req.repo_root) m w.req w.id waited server).1;
            waiting = before ++ later;
          })
  records :
      (s : System) (m : Moment) (rec : Record)
      → Step repo_at s (record s { server = handle_record m rec s.server })
  releases :
      (s : System) (key : Text) → Step repo_at s (record s { server = handle_release key s.server })
  verifies :
      (s : System) (m : Moment) (v : VerifyVerdict)
      → Step repo_at s (record s { server = handle_verify m v s.server })

-- The states that a daemon gets into which is started over some log.
pub data IsReachable (repo_at : Text → Repo) : System → Type 0 where
  starts :
      (log : List (Option Record))
      → IsReachable repo_at (record { server = new_server log; waiting = [] })
  goes_on : (s s' : System) → IsReachable repo_at s → Step repo_at s s' → IsReachable repo_at s'
