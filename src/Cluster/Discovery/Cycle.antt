-- ===== src/Cluster/Discovery/Cycle.antt =====
-- plugins/docker-cluster/discovery.go, the life of the discovery: Start and Stop.
use joyride.Common.{Bytes, Bool, true, false, Option, none, some, if◌then◌else◌}
use joyride.Cluster.Discovery.{PeerDiscovery}

-- `cancel` says that there is a context to cancel, `cancelled` that it is done, `bound` that there is
-- a socket, `listening` that it is not closed, and `looping` that the two goroutines are there.
pub record Session : Type 0 where
  pub discovery : PeerDiscovery
  pub cancel : Bool
  pub cancelled : Bool
  pub bound : Bool
  pub listening : Bool
  pub looping : Bool

unfoldable pub new_session : PeerDiscovery → Session
new_session pd = record {
  discovery = pd;
  cancel = false;
  cancelled = false;
  bound = false;
  listening = false;
  looping = false;
}

-- `listen` is the error of ListenUDP, if it has one; the result is the error of `Start`.
unfoldable pub start : Option Bytes → Session → Session × Option Bytes
start listen s = elim listen [
  | some e ↦ (record s { cancel = true; cancelled = false }, some e)
  | none ↦ (
    record s { cancel = true; cancelled = false; bound = true; listening = true; looping = true },
    none,
  )
]

-- The context, the socket, and the end of the two goroutines.
unfoldable pub stop : Session → Session
stop s =
    let s = if s.cancel then record s { cancelled = true } else s in
    let s = if s.bound then record s { listening = false } else s in record s { looping = false }
