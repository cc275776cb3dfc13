-- ===== src/Tests/Configs.antt =====
-- plugins/docker-cluster/cluster_config.go, cluster.go and discovery.go.
use joyride.Common.{
  pos, Bytes, codes, same, true, Option, none, some, List, [], ◌∷◌, ◌++◌, ◌≡◌, ◌↔◌, refl,
  if◌then◌else◌, arith,
}
use joyride.Cluster.Message.{RecordMessage}
use joyride.Cluster.Records.{new_records}
use joyride.Cluster.Delegate.{Wire, BroadcastQueue, Delegate, running}
use joyride.Cluster.Config.{ClusterConfig, named, valid, validate}
use joyride.Cluster.Config.Valid.{IsValid, Completes, validate-IsValid}
use joyride.Cluster.Manager.{
  Manager, notify_record_add, notify_record_remove, add_record_message, remove_record_message,
}
use joyride.Cluster.Manager.Replication.{Sends, Heard, notify_record-Heard}
use joyride.Cluster.Discovery.{
  DiscoveryPacket, discovery_message, peer_address, decimal, digits_onto,
}
use joyride.Cluster.Discovery.Peers.{last_announced}

abbrev clustered : ClusterConfig
clustered = record {
  enabled = true;
  port = pos 7946;
  seeds = [];
  node_name = [];
  bind_addr = codes "0.0.0.0";
  secret_key = [];
  discovery_port = pos 8889;
}

abbrev node_a : ClusterConfig
node_a = record clustered { node_name = codes "a" }

-- The name of the host completes the configuration.
completed : validate (named (codes "a")) clustered ≡ valid node_a
unfolding validate same
completed = refl

validate-IsValid_example :
    (validate (named (codes "a")) clustered ≡ valid node_a)
    ↔ (IsValid node_a × Completes (codes "a") clustered node_a)
validate-IsValid_example = validate-IsValid (codes "a") clustered node_a cc

abbrev queue : BroadcastQueue (List Bytes)
queue = record {
  empty = [];
  queue_broadcast = λ q buf. q ++ (buf ∷ []);
  get_broadcasts = λ q overhead limit. ([], q);
}

abbrev local : Delegate (List Bytes)
local = record {
  node_id = codes "a";
  records = new_records;
  broadcasts = [];
  msg_chan = [];
  loop = running;
}

abbrev peer : Delegate (List Bytes)
peer = record local { node_id = codes "b" }

abbrev manager : Manager (List Bytes)
manager = record { config = node_a; delegate = some local; num_members = some 2 }

abbrev app : Bytes
app = codes "app.local"

abbrev added : RecordMessage
added = add_record_message manager app (codes "10.0.0.1") (pos 5)

abbrev removed : RecordMessage
removed = remove_record_message manager app (pos 5)

-- A codec for these two messages, by their actions, and for states that are not sent.
abbrev wire : Wire
wire = record {
  encode_record_message = λ m. some (m.action ∷ []);
  decode_record_message = λ buf. if same buf (added.action ∷ []) then some added else some removed;
  encode_full_state = λ s. none;
  decode_full_state = λ buf. none;
}

added-Sends : Sends wire added (added.action ∷ [])
unfolding same
added-Sends = record { encodes = refl; not_empty = omega arith; decodes = refl }

removed-Sends : Sends wire removed (removed.action ∷ [])
unfolding same
removed-Sends = record { encodes = refl; not_empty = omega arith; decodes = refl }

notify_record-Heard_example :
    Heard wire queue
      (notify_record_add wire queue manager app (codes "10.0.0.1") (pos 5))
      local
      peer
      (added.action ∷ [])
      app
    × Heard wire queue
        (notify_record_remove wire queue manager app (pos 5))
        local
        peer
        (removed.action ∷ [])
        app
notify_record-Heard_example =
    notify_record-Heard wire queue manager local peer app (codes "10.0.0.1") (pos 5)
      (added.action ∷ []) (removed.action ∷ []) app added-Sends removed-Sends refl refl refl refl

abbrev node_b_packet : DiscoveryPacket
node_b_packet = record { magic = discovery_message; node_id = codes "b"; cluster_port = pos 7946 }

-- A decoder that knows one packet.
abbrev decode : Bytes → Option DiscoveryPacket
decode buf = if same buf (codes "b") then some node_b_packet else none

abbrev packets : List (Bytes × Bytes)
packets = (codes "?", codes "10.0.0.9") ∷ (codes "b", codes "10.0.0.2") ∷ []

printed : decimal (pos 7946) ≡ codes "7946"
unfolding decimal digits_onto
printed = refl

-- The packet of node b says where it is.
announced_b :
    last_announced decode (codes "a") (codes "b") packets none ≡ some (codes "10.0.0.2:7946")
unfolding same peer_address decimal digits_onto
announced_b = refl
