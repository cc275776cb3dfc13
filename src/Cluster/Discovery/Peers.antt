-- ===== src/Cluster/Discovery/Peers.antt =====
-- What the peer table holds after packets.
use joyride.Common.{
  Bytes, same, same_iff, not, ◌&&◌, Option, none, some, List, [], ◌∷◌, is_some, if◌then◌else◌, ◌≡◌,
  refl, ap, ◌∙◌, arith, Option-cases, inl, inr,
}
use joyride.Common.Map.{get}
use joyride.Common.Map.Laws.{get-put}
use joyride.Cluster.Discovery.{
  DiscoveryPacket, PeerDiscovery, peer_address, discovery_message, accept_packet, handle_packet,
}

-- Packets, each with the address that it came from.
unfoldable pub handle_all :
    (Bytes → Option DiscoveryPacket) → PeerDiscovery → List (Bytes × Bytes) → PeerDiscovery
handle_all decode pd [] = pd
handle_all decode pd ((buf, ip) ∷ rest) = handle_all decode (handle_packet decode pd buf ip) rest

-- The packet says how to reach the node of that name, for the receiver named `me`.
abbrev pub announced :
    (Bytes → Option DiscoveryPacket) → Bytes → Bytes → Bytes → Bytes → Option Bytes
announced decode me id buf ip = elim (decode buf) [
  | none ↦ none
  | some packet ↦
      if same packet.magic discovery_message && not (same id me) && same packet.node_id id
      then some (peer_address ip packet.cluster_port)
      else none
]

-- The last packet that says how to reach the node, or what was known before.
abbrev pub last_announced :
    (Bytes → Option DiscoveryPacket)
    → Bytes
    → Bytes
    → List (Bytes × Bytes)
    → Option Bytes
    → Option Bytes
last_announced decode me id [] known = known
last_announced decode me id ((buf, ip) ∷ rest) known =
    last_announced decode me id rest
      (if is_some (announced decode me id buf ip) then announced decode me id buf ip else known)

module _ (decode : Bytes → Option DiscoveryPacket) where
  handle_packet-peers :
      (pd : PeerDiscovery) (buf ip id : Bytes)
      → get (handle_packet decode pd buf ip).peers id ≡ (
          if is_some (announced decode pd.node_id id buf ip)
          then announced decode pd.node_id id buf ip
          else get pd.peers id)
  unfolding handle_packet accept_packet
  handle_packet-peers pd buf ip id = elim (Option-cases (decode buf)) [
    | inl e ↦ ground arith
    | inr (p, e) ↦ ground (
      arith,
      get-put pd.peers p.node_id id (peer_address ip p.cluster_port),
      same_iff p.node_id pd.node_id,
      same_iff p.node_id id,
      same_iff id pd.node_id,
    )
  ]

  handle_packet-node_id :
      (pd : PeerDiscovery) (buf ip : Bytes) → (handle_packet decode pd buf ip).node_id ≡ pd.node_id
  unfolding handle_packet accept_packet
  handle_packet-node_id pd buf ip = ground arith

  -- After any packets the table has for each other node the address and port in the last packet
  -- with the magic word that names it, or what it had before if there was none; the node itself is
  -- never entered, nor is anything for a packet that does not decode.
  pub handle_all-peers :
      (pd : PeerDiscovery) (packets : List (Bytes × Bytes)) (id : Bytes)
      → get (handle_all decode pd packets).peers id
        ≡ last_announced decode pd.node_id id packets (get pd.peers id)
  unfolding handle_all
  handle_all-peers pd [] id = refl
  handle_all-peers pd ((buf, ip) ∷ rest) id =
      handle_all-peers (handle_packet decode pd buf ip) rest id
      ∙ ap (λ me. last_announced decode me id rest (get (handle_packet decode pd buf ip).peers id))
          (handle_packet-node_id pd buf ip)
      ∙ ap (last_announced decode pd.node_id id rest) (handle_packet-peers pd buf ip id)
