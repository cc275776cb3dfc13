-- ===== src/Cluster/Manager.antt =====
-- plugins/docker-cluster/cluster.go: the manager between the watcher, the delegate and memberlist.
pub mod Replication
pub mod Cycle
use joyride.Common.{ℕ, ℤ, Bytes, Bool, true, false, not, Option, none, some, [], ltb, if◌then◌else◌}
use joyride.Cluster.Message.{RecordMessage, record_action_add, record_action_remove}
use joyride.Cluster.Records.{Records, apply_message}
use joyride.Cluster.Delegate.{
  Wire, BroadcastQueue, Delegate, new_cluster_delegate, broadcast_record, stop,
}
use joyride.Cluster.Config.{
  ClusterConfig, ConfigError, Hostname, Validated, valid, invalid, validate,
}

-- The store is the delegate's; `num_members` is what memberlist answers, `none` where there is none.
pub record Manager (Queue : Type 0) : Type 0 where
  pub config : ClusterConfig
  pub delegate : Option (Delegate Queue)
  pub num_members : Option ℕ

-- `nil, nil`, an error, or a manager.
pub data Created (Queue : Type 0) : Type 0 where
  disabled : Created Queue
  refused : ConfigError → Created Queue
  created : Manager Queue → Created Queue

module _ {Queue : Type 0} where
  created_with : BroadcastQueue Queue → Records → Validated → Created Queue
  created_with q r (invalid err) = refused err
  created_with q r (valid c) = created (record {
    config = c;
    delegate = some (new_cluster_delegate q c.node_name r);
    num_members = none;
  })

  unfoldable pub new_cluster_manager :
      BroadcastQueue Queue → Hostname → Option ClusterConfig → Records → Created Queue
  unfolding created_with
  new_cluster_manager q hostname none r = disabled
  new_cluster_manager q hostname (some c) r =
      if not c.enabled then disabled else created_with q r (validate hostname c)

  -- The function that the manager hands to the delegate.
  unfoldable pub num_nodes : Manager Queue → ℕ
  num_nodes cm = elim cm.num_members [ none ↦ 1 | some n ↦ n ]

  unfoldable pub is_healthy : Manager Queue → Bool
  is_healthy cm = elim cm.num_members [ none ↦ false | some n ↦ ltb 0 n ]

  -- First locally, then to the others; nothing without a delegate.
  unfoldable pub publish :
      Wire → BroadcastQueue Queue → Manager Queue → RecordMessage → Manager Queue
  publish wire q cm msg = elim cm.delegate [
    | none ↦ cm
    | some d ↦ record cm {
      delegate =
          some
            (broadcast_record wire q (record d { records = (apply_message d.records msg).0 }) msg);
    }
  ]

  abbrev pub add_record_message : Manager Queue → Bytes → Bytes → ℤ → RecordMessage
  add_record_message cm hostname ip timestamp = record {
    hostname = hostname;
    ip = ip;
    action = record_action_add;
    timestamp = timestamp;
    node_id = cm.config.node_name;
  }

  abbrev pub remove_record_message : Manager Queue → Bytes → ℤ → RecordMessage
  remove_record_message cm hostname timestamp = record {
    hostname = hostname;
    ip = [];
    action = record_action_remove;
    timestamp = timestamp;
    node_id = cm.config.node_name;
  }

  unfoldable pub notify_record_add :
      Wire → BroadcastQueue Queue → Manager Queue → Bytes → Bytes → ℤ → Manager Queue
  unfolding publish
  notify_record_add wire q cm hostname ip timestamp =
      publish wire q cm (add_record_message cm hostname ip timestamp)

  unfoldable pub notify_record_remove :
      Wire → BroadcastQueue Queue → Manager Queue → Bytes → ℤ → Manager Queue
  unfolding publish
  notify_record_remove wire q cm hostname timestamp =
      publish wire q cm (remove_record_message cm hostname timestamp)
