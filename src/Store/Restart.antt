-- ===== src/Store/Restart.antt =====
-- internal/hp/store.go and the verdicts of internal/hp/daemon.go: what a restart reads back.
use fasthack.Prelude.{◌≡◌, refl, Option, some, List, [], ◌∷◌, ◌++◌}
use fasthack.Record.{Record}
use fasthack.Store.{Store, ingest_line, replay_from, open_store, append}

replay_from-append :
    (s : Store) (log more : List (Option Record))
    → replay_from s (log ++ more) ≡ replay_from (replay_from s log) more
unfolding replay_from
replay_from-append s [] more = refl
replay_from-append s (line ∷ log) more = replay_from-append (ingest_line s line) log more

-- A store that was opened from its log and is appended to is the store that the longer log opens.
pub append-open_store :
    (log : List (Option Record)) (r : Record)
    → (append (log, open_store log) r).1 ≡ open_store (append (log, open_store log) r).0
unfolding append open_store
append-open_store log r = rw (replay_from-append _ log (some r ∷ [])) (unfold replay_from in refl)
