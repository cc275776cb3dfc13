-- ===== src/Tests/Gossip.antt =====
-- plugins/docker-cluster/delegate.go.
use mathlib.Core.List.Perm
use joyride.Common.{
  ℕ, zero, suc, take, Bytes, codes, same, none, some, List, [], ◌∷◌, ◌++◌, ◌≡◌, refl, String,
  if◌then◌else◌, arith, length,
}
use joyride.Cluster.Message.{RecordMessage}
use joyride.Cluster.Records.{new_records, apply_message}
use joyride.Cluster.Records.Cell.{cell}
use joyride.Cluster.Records.Converge.{apply_all}
use joyride.Cluster.Records.WellFormed.{new_records-IsWellFormed, apply_message-IsWellFormed}
use joyride.Cluster.Delegate.{
  Wire, BroadcastQueue, Delegate, running, full_state, local_state, merge_remote_state,
}
use joyride.Cluster.Delegate.Inbox.{
  process_rounds-overflow, decoded, notify_all, process_rounds, process_rounds-notify_all,
}
use joyride.Cluster.Delegate.PushPull.{
  Transfers, apply_message-IsReplicated, new_records-IsReplicated, push_pull_agree,
}
use joyride.Cluster.Delegate.Joining.{merge_remote_state-local_state}
use joyride.Tests.Data.{app_a, app_b, app, by_node, app_a-IsIssued, app_b-IsIssued}

abbrev node : String → RecordMessage → Delegate (List Bytes)
node name m = record {
  node_id = codes name;
  records = (apply_message new_records m).0;
  broadcasts = [];
  msg_chan = [];
  loop = running;
}

abbrev node_a : Delegate (List Bytes)
node_a = node "a" app_a

abbrev node_b : Delegate (List Bytes)
node_b = node "b" app_b

-- A codec for these two nodes: a state is sent as its node's name, a message as one byte.
abbrev wire : Wire
wire = record {
  encode_record_message = λ m. some (codes "m");
  decode_record_message = λ buf. if same buf (codes "m") then some app_b else none;
  encode_full_state = λ s. some s.node_id;
  decode_full_state =
      λ buf. some (if same buf (codes "a") then full_state node_a else full_state node_b);
}

abbrev queue : BroadcastQueue (List Bytes)
queue = record {
  empty = [];
  queue_broadcast = λ q buf. q ++ (buf ∷ []);
  get_broadcasts = λ q overhead limit. ([], q);
}

node_a-Transfers : Transfers wire (full_state node_a)
unfolding same
node_a-Transfers = record {
  buf = codes "a";
  state = full_state node_a;
  encodes = refl;
  not_empty = omega arith;
  decodes = refl;
  entries = Perm.refl (full_state node_a).records;
}

node_b-Transfers : Transfers wire (full_state node_b)
unfolding same
node_b-Transfers = record {
  buf = codes "b";
  state = full_state node_b;
  encodes = refl;
  not_empty = omega arith;
  decodes = refl;
  entries = Perm.refl (full_state node_b).records;
}

push_pull_agree_example :
    cell (merge_remote_state wire node_a (local_state wire node_b)).records app
    ≡ cell (merge_remote_state wire node_b (local_state wire node_a)).records app
push_pull_agree_example =
    push_pull_agree by_node wire node_a node_b app
      (apply_message-IsWellFormed new_records app_a new_records-IsWellFormed)
      (apply_message-IsWellFormed new_records app_b new_records-IsWellFormed)
      (apply_message-IsReplicated by_node new_records app_a app_a-IsIssued
        (new_records-IsReplicated by_node))
      (apply_message-IsReplicated by_node new_records app_b app_b-IsIssued
        (new_records-IsReplicated by_node))
      node_a-Transfers node_b-Transfers

process_rounds-notify_all_example :
    process_rounds
      (length (decoded wire (codes "m" ∷ codes "?" ∷ [])))
      (notify_all wire node_a (codes "m" ∷ codes "?" ∷ []))
    ≡ record node_a {
      records = apply_all node_a.records (decoded wire (codes "m" ∷ codes "?" ∷ []));
    }
unfolding decoded same
process_rounds-notify_all_example =
    process_rounds-notify_all wire node_a (codes "m" ∷ codes "?" ∷ []) refl refl (omega arith)

abbrev burst : ℕ → List Bytes
burst zero = []
burst (suc n) = codes "m" ∷ burst n

process_rounds-overflow_example :
    ((notify_all wire node_a (burst 300)).msg_chan ≡ take 256 (decoded wire (burst 300)))
    × (process_rounds 256 (notify_all wire node_a (burst 300)) ≡ record node_a {
      records = apply_all node_a.records (take 256 (decoded wire (burst 300)));
    })
process_rounds-overflow_example = process_rounds-overflow wire node_a (burst 300) refl refl

abbrev joining : Delegate (List Bytes)
joining = record node_a { records = new_records }

merge_remote_state-local_state_example :
    cell (merge_remote_state wire joining (local_state wire node_b)).records app
    ≡ cell node_b.records app
merge_remote_state-local_state_example =
    merge_remote_state-local_state by_node wire joining node_b app refl
      (apply_message-IsWellFormed new_records app_b new_records-IsWellFormed)
      (apply_message-IsReplicated by_node new_records app_b app_b-IsIssued
        (new_records-IsReplicated by_node))
      node_b-Transfers
