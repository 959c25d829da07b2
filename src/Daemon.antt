-- ===== src/Daemon.antt =====
-- internal/hp/daemon.go: the shared cache. A handler is a function from the server's state, the
-- decoded request and a `Moment` to the answer and the new state; only `handleLookup` can block, on
-- a lease, and is resumed by another function. HTTP, JSON and the event stream are not modelled.
pub mod Leases
pub mod Decisions
pub mod Lookup
pub mod Handlers
pub mod Stats
pub mod Served
pub mod Held
pub mod Steps
pub mod Sound
pub mod SingleFlight
pub mod Coalesce
pub mod Restarts
pub mod Counts
mod Tests
use fasthack.Prelude.{ℕ, Bool, Option, List, []}
use fasthack.Text.{Text}
use fasthack.Dict.{Dict}
use fasthack.Record.{Record}
use fasthack.Store.{Store, open_store}

-- LookupReq
pub record LookupReq : Type 0 where
  pub key : Text
  pub agent : Text
  pub cmd : Text
  pub cmd_norm : Text
  pub cwd_rel : Text
  pub tree : Text
  pub env_fp : Text
  pub policy : Text
  pub reason : Text
  pub serve : Bool
  pub repo_root : Text

-- LookupResp
pub record LookupResp : Type 0 where
  pub decision : Text
  pub exit_code : ℕ
  pub stdout_blob : Text
  pub stderr_blob : Text
  pub source_agent : Text
  pub duration_ms : ℕ
  pub tier : ℕ
  pub scope_reason : Text
  pub waited_ms : ℕ

-- lease; `id` is the identity of its channel `done`
pub record Lease : Type 0 where
  pub agent : Text
  pub at : ℕ
  pub id : ℕ

-- Server, with the lines of its log file, the channels that are closed, and the next identity.
pub record Server : Type 0 where
  pub log : List (Option Record)
  pub store : Store
  pub leases : Dict Lease
  pub unservable : Dict Bool
  pub closed : List ℕ
  pub next : ℕ

-- NewServer, over the log that it finds
unfoldable pub new_server : List (Option Record) → Server
new_server log = record {
  log = log;
  store = open_store log;
  leases = [];
  unservable = [];
  closed = [];
  next = 0;
}

-- What a handler meets: the clock, in milliseconds, and whether the log file can be written.
pub record Moment : Type 0 where
  pub now : ℕ
  pub disk : Bool
