-- ===== src/Cluster/Wiring.antt =====
-- plugins/docker-cluster/setup.go: the callback that joins the watcher to the cluster manager. The
-- watcher and the manager's delegate share one record store.
pub mod Queued
pub mod Published
use joyride.Common.{Bytes, Bool, true, false, Option, none, some, if◌then◌else◌}
use joyride.Cluster.Records.{Records}
use joyride.Cluster.Delegate.{Wire, BroadcastQueue, Delegate}
use joyride.Cluster.Manager.{Manager, notify_record_add, notify_record_remove}
use joyride.Cluster.Watcher.{Change, RecordChangeCallback}

module _ {Queue : Type 0} where
  -- The manager, with the shared store as the watcher has left it.
  abbrev pub with_records : Records → Manager Queue → Manager Queue
  with_records r cm = elim cm.delegate [
    | none ↦ cm
    | some d ↦ record cm { delegate = some (record d { records = r }) }
  ]

  -- The shared store, as the manager has left it.
  abbrev pub records_of : Records → Manager Queue → Records
  records_of r cm = elim cm.delegate [ none ↦ r | some d ↦ d.records ]

  -- The two calls of the callback.
  unfoldable pub notified : Wire → BroadcastQueue Queue → Change → Manager Queue → Manager Queue
  notified wire q c cm =
      if c.added
      then notify_record_add wire q cm c.hostname c.ip c.timestamp
      else notify_record_remove wire q cm c.hostname c.timestamp

  unfoldable pub cluster_callback :
      Wire → BroadcastQueue Queue → RecordChangeCallback (Manager Queue)
  cluster_callback wire q c (r, cm) =
      let cm' = notified wire q c (with_records r cm) in (records_of r cm', cm')
