-- ===== src/Daemon/Leases.antt =====
-- internal/hp/daemon.go: the leases.
use fasthack.Prelude.{
  ℕ, ◌+◌, Bool, false, ◌||◌, Option, none, some, List, [], ◌∷◌, ◌==◌, if◌then◌else◌,
}
use fasthack.Text.{Text}
use fasthack.Dict.{get, put, remove}
use fasthack.Daemon.{Lease, Server}

abbrev pub take_lease : Server → Text → Text → ℕ → Option Lease → Server
take_lease sv key agent now (some l) = sv
take_lease sv key agent now none = record sv {
  leases = put sv.leases key (record { agent = agent; at = now; id = sv.next });
  next = sv.next + 1;
}

-- acquire
unfoldable pub acquire : Server → Text → Text → ℕ → Server
acquire sv key agent now = take_lease sv key agent now (get sv.leases key)

abbrev pub give_back : Server → Text → Option Lease → Server
give_back sv key none = sv
give_back sv key (some l) = record sv { leases = remove sv.leases key; closed = l.id ∷ sv.closed }

-- release
unfoldable pub release : Server → Text → Server
release sv key = give_back sv key (get sv.leases key)

abbrev same_lease : ℕ → Option Lease → Bool
same_lease id none = false
same_lease id (some cur) = cur.id == id

-- The branch of `waitForPeer` behind the timeout: the lease goes, its channel stays open.
unfoldable pub drop_lease : Server → Text → ℕ → Server
drop_lease sv key id =
    if same_lease id (get sv.leases key) then record sv { leases = remove sv.leases key } else sv

abbrev pub is_true : Option Bool → Bool
is_true none = false
is_true (some b) = b

abbrev pub id_of : Option Lease → Option ℕ
id_of none = none
id_of (some l) = some l.id

-- The lease that `waitForPeer` waits for, if it waits.
unfoldable pub peer_lease : Server → Text → Option ℕ
peer_lease sv key = if is_true (get sv.unservable key) then none else id_of (get sv.leases key)

-- Whether the channel is closed.
unfoldable pub is_closed : List ℕ → ℕ → Bool
is_closed [] id = false
is_closed (i ∷ ids) id = i == id || is_closed ids id
