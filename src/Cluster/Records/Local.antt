-- ===== src/Cluster/Records/Local.antt =====
-- A change of the watcher, and the notification of it that the manager applies to the same store.
use joyride.Common.{Bytes, same_refl, to_lower, true, none, some, ◌≡◌, ◌∙◌, arith}
use joyride.Common.Map.{get}
use joyride.Common.Map.Laws.{get-put, get-del}
use joyride.Cluster.Message.{RecordMessage, record_action_add, record_action_remove}
use joyride.Cluster.Records.{Records, add, remove, is_stale, apply_message}
use joyride.Cluster.Records.Cell.{cell, cell_step, cell-apply_message}

cell-add :
    (r : Records) (h ip : Bytes)
    → cell (add r h ip) (to_lower h)
      ≡ record { address = some ip; stamp = get r.meta_map (to_lower h) }
unfolding add
cell-add r h ip =
    ground (arith, get-put r.data_map (to_lower h) (to_lower h) ip, same_refl (to_lower h))

cell-remove :
    (r : Records) (h : Bytes)
    → cell (remove r h) (to_lower h)
      ≡ record { address = none; stamp = get r.meta_map (to_lower h) }
unfolding remove
cell-remove r h =
    ground (arith, get-del r.data_map (to_lower h) (to_lower h), same_refl (to_lower h))

-- A store that has a stamp for a hostname that an announcement does not beat: applied by itself, the
-- announcement changes nothing there; behind the Add of the same address it leaves that address
-- under the stamp of the other. A removal that is applied behind the Remove of its hostname finds
-- nothing to remove, and the stamp stays.
pub apply_message_behind_local :
    (r : Records) (a m : RecordMessage)
    → a.action ≡ record_action_add
    → m.action ≡ record_action_remove
    → is_stale (get r.meta_map (to_lower a.hostname)) a.timestamp a.node_id ≡ true
    → (cell (apply_message r a).0 (to_lower a.hostname) ≡ cell r (to_lower a.hostname))
      × (cell (apply_message (add r a.hostname a.ip) a).0 (to_lower a.hostname)
          ≡ record { address = some a.ip; stamp = get r.meta_map (to_lower a.hostname) })
      × (cell (apply_message (remove r m.hostname) m).0 (to_lower m.hostname)
          ≡ record { address = none; stamp = get r.meta_map (to_lower m.hostname) })
unfolding cell_step
apply_message_behind_local r a m adds removes stale =
    let key = to_lower a.hostname in
    let gone = to_lower m.hostname in
    (
      cell-apply_message r a key ∙ ground (arith, same_refl key, adds, stale),
      cell-apply_message (add r a.hostname a.ip) a key
          ∙ ground (arith, same_refl key, adds, stale, cell-add r a.hostname a.ip),
      cell-apply_message (remove r m.hostname) m gone
          ∙ ground (arith, same_refl gone, removes, cell-remove r m.hostname),
    )
