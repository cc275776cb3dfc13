-- ===== src/Cluster/Discovery.antt =====
-- plugins/docker-cluster/discovery.go: the table of peers that broadcasts fill. Sockets are outside.
pub mod Peers
pub mod Listen
pub mod Broadcast
pub mod Cycle
use joyride.Common.{
  ℕ, zero, suc, ◌+◌, ◌/◌, ◌%◌, ℤ, pos, negsuc, Bytes, codes, same, Bool, true, false, not, Option,
  none, some, List, [], ◌∷◌, ◌++◌, ltb, ◌==ℤ◌, map, if◌then◌else◌, ◌<◌, ◌≡◌, arith,
}
use joyride.Common.Map.{Map, get, put}

abbrev pub default_discovery_port : ℤ
default_discovery_port = pos 8889

abbrev pub discovery_message : Bytes
discovery_message = codes "COREDNS-CLUSTER"

pub record DiscoveryPacket : Type 0 where
  pub magic : Bytes
  pub node_id : Bytes
  pub cluster_port : ℤ

pub record PeerDiscovery : Type 0 where
  pub node_id : Bytes
  pub cluster_port : ℤ
  pub discovery_port : ℤ
  pub peers : Map Bytes

unfoldable pub new_peer_discovery : Bytes → ℤ → ℤ → PeerDiscovery
new_peer_discovery id cluster_port discovery_port = record {
  node_id = id;
  cluster_port = cluster_port;
  discovery_port = if discovery_port ==ℤ pos 0 then default_discovery_port else discovery_port;
  peers = [];
}

-- The digits of `n` before `acc`; the fuel is one more than `n`.
unfoldable pub digits_onto : ℕ → ℕ → Bytes → Bytes
digits_onto zero n acc = acc
digits_onto (suc f) n acc = elim (ltb n 10) [
  | true ↦ (48 + n) ∷ acc
  | false ↦ digits_onto f (n / 10) ((48 + n % 10) ∷ acc)
]

-- More fuel makes no difference.
digits_onto_enough :
    (f g n : ℕ) (acc : Bytes) → n < f → n < g → digits_onto f n acc ≡ digits_onto g n acc
unfolding digits_onto
digits_onto_enough zero g n acc p q = absurd (omega arith)
digits_onto_enough (suc f) zero n acc p q = absurd (omega arith)
digits_onto_enough (suc f) (suc g) n acc p q =
    ground (arith, digits_onto_enough f g (n / 10) ((48 + n % 10) ∷ acc))

-- `%d`
unfoldable pub decimal : ℤ → Bytes
decimal (pos n) = digits_onto (suc n) n []
decimal (negsuc n) = b'-' ∷ digits_onto (suc (suc n)) (suc n) []

-- `fmt.Sprintf("%s:%d", ...)`
unfoldable pub peer_address : Bytes → ℤ → Bytes
peer_address ip port = ip ++ (b':' ∷ decimal port)

-- A packet that was decoded, from the address `ip` as text.
unfoldable pub accept_packet : PeerDiscovery → DiscoveryPacket → Bytes → PeerDiscovery
accept_packet pd packet ip =
    if not (same packet.magic discovery_message)
    then pd
    else if same packet.node_id pd.node_id
    then pd
    else record pd { peers = put pd.peers packet.node_id (peer_address ip packet.cluster_port) }

-- `decode` is `json.Unmarshal`, `none` for an error.
unfoldable pub handle_packet :
    (Bytes → Option DiscoveryPacket) → PeerDiscovery → Bytes → Bytes → PeerDiscovery
handle_packet decode pd buf ip = elim (decode buf) [
  | none ↦ pd
  | some packet ↦ accept_packet pd packet ip
]

-- The packet that the node broadcasts.
unfoldable pub own_packet : PeerDiscovery → DiscoveryPacket
own_packet pd = record {
  magic = discovery_message;
  node_id = pd.node_id;
  cluster_port = pd.cluster_port;
}

-- In the order of one iteration.
unfoldable pub get_peers : PeerDiscovery → List Bytes
get_peers pd = map (λ e. e.1) pd.peers
