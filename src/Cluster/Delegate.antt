-- ===== src/Cluster/Delegate.antt =====
-- plugins/docker-cluster/delegate.go: gossip messages in and out, and the full state exchange.
-- The JSON codec and memberlist's broadcast queue are parameters.
pub mod Inbox
pub mod Sync
pub mod PushPull
pub mod Joining
pub mod Racing
use joyride.Common.{
  ℕ, Bytes, Bool, true, false, Option, none, some, List, [], ◌∷◌, ◌++◌, length, ltb, ◌==◌,
  if◌then◌else◌,
}
use joyride.Common.Map.{Map}
use joyride.Cluster.Message.{RecordMessage, RecordEntry, FullState, record_action_add}
use joyride.Cluster.Records.{Records, get_all_with_meta, apply_message}

-- encoding/json on the two message types; `none` is an error.
pub record Wire : Type 0 where
  pub encode_record_message : RecordMessage → Option Bytes
  pub decode_record_message : Bytes → Option RecordMessage
  pub encode_full_state : FullState → Option Bytes
  pub decode_full_state : Bytes → Option FullState

-- memberlist's TransmitLimitedQueue, as the delegate uses it.
pub record BroadcastQueue (Queue : Type 0) : Type 0 where
  pub empty : Queue
  pub queue_broadcast : Queue → Bytes → Queue
  pub get_broadcasts : Queue → ℕ → ℕ → Queue × List Bytes

-- The goroutine that reads the channel: not there before `Start`, gone after `Stop`.
pub data Loop : Type 0 where
  idle running stopped : Loop

pub record Delegate (Queue : Type 0) : Type 0 where
  pub node_id : Bytes
  pub records : Records
  pub broadcasts : Queue
  pub msg_chan : List RecordMessage
  pub loop : Loop

abbrev pub msg_chan_buffer_size : ℕ
msg_chan_buffer_size = 256

-- The record of one entry of a remote state, as a message.
abbrev pub entry_message : Bytes → RecordEntry → RecordMessage
entry_message hostname entry = record {
  hostname = hostname;
  ip = entry.ip;
  action = record_action_add;
  timestamp = entry.timestamp;
  node_id = entry.node_id;
}

-- The loop over `state.Records`, in the order of its iteration.
unfoldable pub merge_entries : Records → Map RecordEntry → Records
merge_entries r [] = r
merge_entries r ((hostname, entry) ∷ rest) =
    merge_entries (apply_message r (entry_message hostname entry)).0 rest

module _ {Queue : Type 0} where
  unfoldable pub new_cluster_delegate : BroadcastQueue Queue → Bytes → Records → Delegate Queue
  new_cluster_delegate q id r = record {
    node_id = id;
    records = r;
    broadcasts = q.empty;
    msg_chan = [];
    loop = idle;
  }

  -- The `select` with a `default`: a channel that has as many messages as it was made for drops another.
  unfoldable pub send : Delegate Queue → RecordMessage → Delegate Queue
  send d msg =
      if ltb (length d.msg_chan) msg_chan_buffer_size
      then record d { msg_chan = d.msg_chan ++ (msg ∷ []) }
      else d

  unfoldable pub notify_msg : Wire → Delegate Queue → Bytes → Delegate Queue
  notify_msg wire d buf =
      if length buf == 0
      then d
      else elim (wire.decode_record_message buf) [ none ↦ d | some msg ↦ send d msg ]

  unfoldable pub get_broadcasts :
      BroadcastQueue Queue → Delegate Queue → ℕ → ℕ → Delegate Queue × List Bytes
  get_broadcasts q d overhead limit =
      let (rest, sent) = q.get_broadcasts d.broadcasts overhead limit in
      (record d { broadcasts = rest }, sent)

  abbrev pub full_state : Delegate Queue → FullState
  full_state d = record { node_id = d.node_id; records = get_all_with_meta d.records }

  -- `nil`, the answer to a failed encoding, is the empty slice.
  unfoldable pub local_state : Wire → Delegate Queue → Bytes
  local_state wire d = elim (wire.encode_full_state (full_state d)) [ none ↦ [] | some buf ↦ buf ]

  unfoldable pub merge_remote_state : Wire → Delegate Queue → Bytes → Delegate Queue
  merge_remote_state wire d buf = if length buf == 0 then d else elim (wire.decode_full_state buf) [
    | none ↦ d
    | some state ↦ record d { records = merge_entries d.records state.records }
  ]

  unfoldable pub broadcast_record :
      Wire → BroadcastQueue Queue → Delegate Queue → RecordMessage → Delegate Queue
  broadcast_record wire q d msg = elim (wire.encode_record_message msg) [
    | none ↦ d
    | some buf ↦ record d { broadcasts = q.queue_broadcast d.broadcasts buf }
  ]

  unfoldable pub start : Delegate Queue → Delegate Queue
  start d = record d { loop = running }

  -- `Stop` cancels the context if there is one, and waits until the goroutine is gone. Messages that the
  -- goroutine still takes before it looks at the context are rounds of `process_message` in front.
  unfoldable pub stop : Delegate Queue → Delegate Queue
  stop d = elim d.loop [ running ↦ record d { loop = stopped } | other ↦ d ]

  receive : Delegate Queue → List RecordMessage → Delegate Queue
  receive d [] = d
  receive d (msg ∷ rest) = record d { msg_chan = rest; records = (apply_message d.records msg).0 }

  -- One round of the goroutine's loop that takes a message.
  unfoldable pub process_message : Delegate Queue → Delegate Queue
  unfolding receive
  process_message d = elim d.loop [ running ↦ receive d d.msg_chan | other ↦ d ]
