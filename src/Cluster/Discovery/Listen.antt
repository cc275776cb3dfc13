-- ===== src/Cluster/Discovery/Listen.antt =====
-- plugins/docker-cluster/discovery.go, listenLoop: what the socket gives, up to the end of the context.
use joyride.Common.{
  ℕ, Bytes, Bool, true, false, Option, List, [], ◌∷◌, take, if◌then◌else◌, ◌≡◌, refl, ap, ◌∙◌,
}
use joyride.Common.Map.{get}
use joyride.Cluster.Discovery.{DiscoveryPacket, PeerDiscovery, handle_packet}
use joyride.Cluster.Discovery.Peers.{handle_all, handle_all-peers, last_announced}

-- What ReadFromUDP comes to: the deadline of one second passed, another error (with whether the
-- context is done by then), or a datagram with the address that it came from, as text.
pub data Read : Type 0 where
  timed_out : Read
  failed : Bool → Read
  datagram : Bytes → Bytes → Read

-- One round: whether the context is done at its head, and the read.
pub record Round : Type 0 where
  pub done : Bool
  pub read : Read

abbrev pub buffer_size : ℕ
buffer_size = 1024

-- The table after a round, and whether the loop goes on; what is over the size of the buffer is lost.
unfoldable pub listen_round :
    (Bytes → Option DiscoveryPacket) → PeerDiscovery → Read → PeerDiscovery × Bool
listen_round decode pd timed_out = (pd, true)
listen_round decode pd (failed true) = (pd, false)
listen_round decode pd (failed false) = (pd, true)
listen_round decode pd (datagram buf ip) = (handle_packet decode pd (take buffer_size buf) ip, true)

-- The flag is that the loop has returned.
unfoldable pub listen_loop :
    (Bytes → Option DiscoveryPacket) → PeerDiscovery → List Round → PeerDiscovery × Bool
listen_loop decode pd [] = (pd, false)
listen_loop decode pd (r ∷ rs) =
    let (pd', going) = listen_round decode pd r.read in
    let rest = listen_loop decode pd' rs in
    if r.done then (pd, true) else if going then rest else (pd', true)

-- The datagrams that come before the loop returns, cut to the buffer.
abbrev pub heard : List Round → List (Bytes × Bytes)
heard [] = []
heard (r ∷ rs) = if r.done then [] else elim r.read [
  | timed_out ↦ heard rs
  | failed done ↦ if done then [] else heard rs
  | datagram buf ip ↦ (take buffer_size buf, ip) ∷ heard rs
]

module _ (decode : Bytes → Option DiscoveryPacket) where
  -- One more round, before rounds that do as the packets in them say.
  listen_cons :
      (pd : PeerDiscovery) (done : Bool) (x : Read) (rs : List Round)
      → ((pd : PeerDiscovery) → (listen_loop decode pd rs).0 ≡ handle_all decode pd (heard rs))
      → (listen_loop decode pd (record { done = done; read = x } ∷ rs)).0
        ≡ handle_all decode pd (heard (record { done = done; read = x } ∷ rs))
  unfolding listen_loop listen_round handle_all
  listen_cons pd true x rs ih = refl
  listen_cons pd false timed_out rs ih = ih pd
  listen_cons pd false (failed true) rs ih = refl
  listen_cons pd false (failed false) rs ih = ih pd
  listen_cons pd false (datagram buf ip) rs ih =
      ih (handle_packet decode pd (take buffer_size buf) ip)

  listen_loop-handle_all :
      (pd : PeerDiscovery) (rs : List Round)
      → (listen_loop decode pd rs).0 ≡ handle_all decode pd (heard rs)
  unfolding listen_loop handle_all
  listen_loop-handle_all pd [] = refl
  listen_loop-handle_all pd (r ∷ rs) =
      listen_cons pd r.done r.read rs (λ pd. listen_loop-handle_all pd rs)

  -- While the loop listens, the table has for each other node the address and port in the last
  -- datagram, cut to 1024 bytes, that decodes to a packet with the magic word and its name, or what it
  -- had before if there was none; the node itself is never entered. Deadlines and errors change
  -- nothing, and what comes after the end of the context is not read.
  pub listen_loop-peers :
      (pd : PeerDiscovery) (rs : List Round) (id : Bytes)
      → get (listen_loop decode pd rs).0.peers id
        ≡ last_announced decode pd.node_id id (heard rs) (get pd.peers id)
  listen_loop-peers pd rs id =
      ap (λ x. get x.peers id) (listen_loop-handle_all pd rs)
      ∙ handle_all-peers decode pd (heard rs) id
