-- ===== src/Cluster/Message.antt =====
-- plugins/docker-cluster/message.go: the data of the gossip protocol.
use joyride.Common.{ℕ, ℤ, Bytes, []}
use joyride.Common.Map.{Map}

-- A uint8: a decoded message may hold a value that is neither of the two constants.
abbrev pub RecordAction : Type 0
RecordAction = ℕ

abbrev pub record_action_add : RecordAction
record_action_add = 0

abbrev pub record_action_remove : RecordAction
record_action_remove = 1

pub record RecordMessage : Type 0 where
  pub hostname : Bytes
  pub ip : Bytes
  pub action : RecordAction
  pub timestamp : ℤ
  pub node_id : Bytes

pub record RecordEntry : Type 0 where
  pub ip : Bytes
  pub timestamp : ℤ
  pub node_id : Bytes

pub record FullState : Type 0 where
  pub node_id : Bytes
  pub records : Map RecordEntry

unfoldable pub new_full_state : Bytes → FullState
new_full_state id = record { node_id = id; records = [] }
