-- ===== src/Tests/Cycles.antt =====
-- The lives of the watchers, of the manager and of the discovery.
use joyride.Common.{
  ℕ, pos, Bytes, codes, same, same_iff, contains, true, false, Option, none, some, List, [], ◌∷◌,
  ◌≡◌, ◌≢◌, refl, if◌then◌else◌,
}
use joyride.Common.Map.{get}
use joyride.Cluster.Records.{new_records}
use joyride.Cluster.Config.{ClusterConfig}
use joyride.Cluster.Delegate.{Delegate, idle}
use joyride.Cluster.Manager.Cycle as Life
use joyride.Cluster.Manager.Cycle.{
  Cluster, Answer, gives, MemberlistConfig, memberlist_config, Effect, cancel_context,
  stop_discovery, stop_delegate, leave, shutdown, when, discovery_of, Tick, discovery_join_loop,
  new_cluster, then_try,
}
use joyride.Cluster.Manager.Cycle.Joining.{IsAlone, broadcast-join}
use joyride.Cluster.Discovery.{
  DiscoveryPacket, PeerDiscovery, new_peer_discovery, handle_packet, own_packet, get_peers,
  peer_address,
}
use joyride.Cluster.Discovery.Peers.{last_announced}
use joyride.Cluster.Discovery.Listen.{
  Round, timed_out, failed, datagram, listen_loop, heard, listen_loop-peers,
}
use joyride.Cluster.Discovery.Broadcast.{broadcast_loop, broadcast_ticks}

abbrev config : ClusterConfig
config = record {
  enabled = true;
  port = pos 7946;
  seeds = [];
  node_name = codes "a";
  bind_addr = codes "0.0.0.0";
  secret_key = [];
  discovery_port = pos 8889;
}

abbrev local : Delegate (List Bytes)
local = record {
  node_id = codes "a";
  records = new_records;
  broadcasts = [];
  msg_chan = [];
  loop = idle;
}

abbrev cluster : Cluster (List Bytes)
cluster = record {
  manager = record { config = config; delegate = some local; num_members = none };
  discovery = none;
  cancel = false;
}

abbrev one_member : MemberlistConfig → Answer ℕ
one_member c = gives 1

abbrev alone : Cluster (List Bytes)
alone = (Life.start one_member cluster).0

-- Two nodes, and a codec for the packet of the second.
abbrev here : PeerDiscovery
here = new_peer_discovery (codes "a") (pos 7946) (pos 8889)

abbrev there : PeerDiscovery
there = new_peer_discovery (codes "b") (pos 7946) (pos 8889)

abbrev encode : DiscoveryPacket → Option Bytes
encode p = some (codes "b")

abbrev decode : Bytes → Option DiscoveryPacket
decode buf = if same buf (codes "b") then some (own_packet there) else none

abbrev tick : Tick (List Bytes)
tick = record {
  done = false;
  cluster = record {
    manager = record { config = config; delegate = some local; num_members = some 1 };
    discovery = some (handle_packet decode here (codes "b") (codes "10.0.0.2"));
    cancel = true;
  };
  answer = gives 2;
}

tick-IsAlone : IsAlone tick (handle_packet decode here (codes "b") (codes "10.0.0.2"))
tick-IsAlone = record { going = refl; discovery = refl; alone = refl }

decodes_there : decode (codes "b") ≡ some (own_packet there)
unfolding same
decodes_there = refl

other_name : there.node_id ≢ here.node_id
unfolding new_peer_discovery same
other_name h =
    let e : same there.node_id here.node_id ≡ true = (same_iff there.node_id here.node_id).1 h in cc

broadcast-join_example :
    (broadcast_loop encode there (false ∷ [])
      ≡ record { payload = codes "b"; port = there.discovery_port }
        ∷ broadcast_ticks
            (record { payload = codes "b"; port = there.discovery_port })
            (false ∷ []))
    × (contains
          (get_peers (handle_packet decode here (codes "b") (codes "10.0.0.2")))
          (peer_address (codes "10.0.0.2") there.cluster_port)
        ≡ true)
    × (discovery_join_loop (tick ∷ [])
        ≡ then_try
            (get_peers (handle_packet decode here (codes "b") (codes "10.0.0.2")))
            (discovery_join_loop {Queue = List Bytes} []))
broadcast-join_example =
    broadcast-join encode decode here there (codes "b") (codes "10.0.0.2") (false ∷ []) tick [] refl
      decodes_there other_name tick-IsAlone

abbrev rounds : List Round
rounds =
    record { done = false; read = timed_out }
    ∷ record { done = false; read = failed false }
    ∷ record { done = false; read = datagram (codes "b") (codes "10.0.0.2") }
    ∷ record { done = true; read = timed_out }
    ∷ []

listen_loop-peers_example :
    get (listen_loop decode here rounds).0.peers (codes "b")
    ≡ last_announced decode here.node_id (codes "b") (heard rounds) (get here.peers (codes "b"))
listen_loop-peers_example = listen_loop-peers decode here rounds (codes "b")
