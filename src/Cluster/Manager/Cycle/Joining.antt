-- ===== src/Cluster/Manager/Cycle/Joining.antt =====
-- From a broadcast to a join: how two nodes without seeds come together.
use joyride.Common.{
  Bytes, same, same_iff, same_refl, contains, Bool, true, false, Option, some, List, [], ◌∷◌,
  length, ◌==◌, map, ◌≡◌, ◌≢◌, arith, Bool-cases, inl, inr,
}
use joyride.Common.Map.{Map, get}
use joyride.Common.Map.Laws.{get-put}
use joyride.Cluster.Discovery.{
  DiscoveryPacket, PeerDiscovery, handle_packet, accept_packet, own_packet, get_peers, peer_address,
  discovery_message,
}
use joyride.Cluster.Discovery.Broadcast.{broadcast_loop, broadcast_ticks}
use joyride.Cluster.Manager.Cycle.{Tick, then_try, call_of, discovery_join_loop}

contains-get_peers :
    (m : Map Bytes) (id addr : Bytes)
    → get m id ≡ some addr
    → contains (map (λ e. e.1) m) addr ≡ true
unfolding get contains
contains-get_peers [] id addr h = cc
contains-get_peers ((k, v) ∷ m) id addr h = elim (Bool-cases (same k id)) [
  | inl e ↦ ground (arith, same_refl addr, e, h)
  | inr e ↦ ground (arith, contains-get_peers m id addr, e, h)
]

contains-peers :
    (pd : PeerDiscovery) (id addr : Bytes)
    → get pd.peers id ≡ some addr
    → contains (get_peers pd) addr ≡ true
unfolding get_peers
contains-peers pd id addr h = contains-get_peers pd.peers id addr h

contains-ne-nil : (xs : List Bytes) (a : Bytes) → contains xs a ≡ true → (length xs == 0) ≡ false
unfolding contains
contains-ne-nil [] a h = cc
contains-ne-nil (x ∷ xs) a h = ground arith

handle_packet-own :
    (decode : Bytes → Option DiscoveryPacket) (here there : PeerDiscovery) (buf ip : Bytes)
    → decode buf ≡ some (own_packet there)
    → there.node_id ≢ here.node_id
    → get (handle_packet decode here buf ip).peers there.node_id
      ≡ some (peer_address ip there.cluster_port)
unfolding handle_packet accept_packet own_packet
handle_packet-own decode here there buf ip d ne = ground (
  arith,
  d,
  same_iff there.node_id here.node_id,
  same_refl there.node_id,
  same_refl discovery_message,
  get-put here.peers there.node_id there.node_id (peer_address ip there.cluster_port),
)

sent_first :
    (encode : DiscoveryPacket → Option Bytes) (there : PeerDiscovery) (buf : Bytes)
    (ticks : List Bool)
    → encode (own_packet there) ≡ some buf
    → broadcast_loop encode there ticks
      ≡ record { payload = buf; port = there.discovery_port }
        ∷ broadcast_ticks (record { payload = buf; port = there.discovery_port }) ticks
unfolding broadcast_loop
sent_first encode there buf ticks e = ground (arith, e)

module _ {Queue : Type 0} where
  -- The tick of a loop that runs, on a node that is alone and has that table of peers.
  pub record IsAlone (t : Tick Queue) (pd : PeerDiscovery) : Type 0 where
    pub going : t.done ≡ false
    pub discovery : t.cluster.discovery ≡ some pd
    pub alone : t.cluster.manager.num_members ≡ some 1

  alone_tries :
      (t : Tick Queue) (ts : List (Tick Queue)) (pd : PeerDiscovery)
      → IsAlone t pd
      → (length (get_peers pd) == 0) ≡ false
      → discovery_join_loop (t ∷ ts) ≡ then_try (get_peers pd) (discovery_join_loop ts)
  unfolding discovery_join_loop call_of
  alone_tries t ts pd a e = ground (arith, a.going, a.discovery, a.alone, e)

  -- A node sends its broadcast at once. Another that receives it, under another name, knows the address
  -- that it came from with the port in it; and if it is alone, its loop asks its peers, that address
  -- among them, to join at the next tick, and goes on; provided that the codec carries the packet.
  pub broadcast-join :
      (encode : DiscoveryPacket → Option Bytes) (decode : Bytes → Option DiscoveryPacket)
      (here there : PeerDiscovery) (buf ip : Bytes) (ticks : List Bool) (t : Tick Queue)
      (ts : List (Tick Queue))
      → encode (own_packet there) ≡ some buf
      → decode buf ≡ some (own_packet there)
      → there.node_id ≢ here.node_id
      → IsAlone t (handle_packet decode here buf ip)
      → (broadcast_loop encode there ticks
          ≡ record { payload = buf; port = there.discovery_port }
            ∷ broadcast_ticks (record { payload = buf; port = there.discovery_port }) ticks)
        × (contains
              (get_peers (handle_packet decode here buf ip))
              (peer_address ip there.cluster_port)
            ≡ true)
        × (discovery_join_loop (t ∷ ts)
            ≡ then_try (get_peers (handle_packet decode here buf ip)) (discovery_join_loop ts))
  broadcast-join encode decode here there buf ip ticks t ts e d ne a =
      let heard = handle_packet decode here buf ip in
      let address = peer_address ip there.cluster_port in
      let known : contains (get_peers heard) address ≡ true =
        contains-peers heard there.node_id address
          (handle_packet-own decode here there buf ip d ne) in
      (
        sent_first encode there buf ticks e,
        known,
        alone_tries t ts heard a (contains-ne-nil (get_peers heard) address known),
      )
