-- ===== src/Cluster/Discovery/Broadcast.antt =====
-- plugins/docker-cluster/discovery.go, broadcastLoop: the datagrams that a node sends.
use joyride.Common.{ℤ, Bytes, Bool, Option, none, some, List, [], ◌∷◌, if◌then◌else◌}
use joyride.Cluster.Discovery.{DiscoveryPacket, PeerDiscovery, own_packet}

-- What is sent, to the broadcast address, and the port that it goes to.
pub record Sent : Type 0 where
  pub payload : Bytes
  pub port : ℤ

-- One more at each tick of five seconds, until the context is done.
unfoldable pub broadcast_ticks : Sent → List Bool → List Sent
broadcast_ticks d [] = []
broadcast_ticks d (done ∷ ticks) =
    let rest = broadcast_ticks d ticks in if done then [] else d ∷ rest

-- `encode` is `json.Marshal`, none for an error. The first goes out at once.
unfoldable pub broadcast_loop :
    (DiscoveryPacket → Option Bytes) → PeerDiscovery → List Bool → List Sent
broadcast_loop encode pd ticks = elim (encode (own_packet pd)) [
  | none ↦ []
  | some bytes ↦
      let d : Sent = record { payload = bytes; port = pd.discovery_port } in
      d ∷ broadcast_ticks d ticks
]
