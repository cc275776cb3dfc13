-- ===== src/Cluster/Delegate/Racing/Torn.antt =====
-- plugins/docker-cluster/records.go: an announcement between the two loads of GetAllWithMeta.
use joyride.Common.{Bytes, same_refl, to_lower, false, some, ◌≡◌, ◌∙◌, arith}
use joyride.Common.Map.{Map, get}
use joyride.Cluster.Message.{RecordMessage, RecordEntry, record_action_add}
use joyride.Cluster.Records.{Records, is_stale, apply_message, get_all_with_meta}
use joyride.Cluster.Records.Cell.{cell, stamp_of, cell_step, cell-apply_message}
use joyride.Cluster.Records.Issued.{rejected_self}
use joyride.Cluster.Records.WellFormed.{IsWellFormed, apply_message-IsWellFormed}
use joyride.Cluster.Delegate.{merge_entries}
use joyride.Cluster.Delegate.Sync.{get-with_meta, cell-merge_entries}
use joyride.Cluster.Delegate.Racing.{Step, stores_data, stores_meta, idle, halfway, read_entries}

-- The addresses of one store with the stamps of another.
abbrev spliced : Records → Records → Records
spliced r after = record { data_map = r.data_map; meta_map = after.meta_map }

spliced-IsWellFormed :
    (r after : Records) → IsWellFormed r → IsWellFormed after → IsWellFormed (spliced r after)
spliced-IsWellFormed r after w v = record {
  data_unique = w.data_unique;
  meta_unique = v.meta_unique;
  data_lower = w.data_lower;
  meta_lower = v.meta_lower;
}

cell-accepted :
    (p : Records) (m : RecordMessage)
    → m.action ≡ record_action_add
    → is_stale (get p.meta_map (to_lower m.hostname)) m.timestamp m.node_id ≡ false
    → cell (apply_message p m).0 (to_lower m.hostname)
      ≡ record { address = some m.ip; stamp = some (stamp_of m) }
unfolding cell_step
cell-accepted p m is_add new =
    cell-apply_message p m (to_lower m.hostname)
    ∙ ground (arith, same_refl (to_lower m.hostname), is_add, new)

-- The announcement `m` once more, where its stamp is there already.
cell-again :
    (p : Records) (m : RecordMessage) (old : Bytes)
    → cell p (to_lower m.hostname) ≡ record { address = some old; stamp = some (stamp_of m) }
    → cell (apply_message p m).0 (to_lower m.hostname)
      ≡ record { address = some old; stamp = some (stamp_of m) }
unfolding cell_step is_stale
cell-again p m old at =
    cell-apply_message p m (to_lower m.hostname)
    ∙ ground (arith, same_refl (to_lower m.hostname), at, rejected_self (stamp_of m))

-- The entries that GetAllWithMeta returns if the whole of `m` is applied between its two loads.
abbrev pub torn : Records → RecordMessage → Map RecordEntry
torn r m = read_entries (idle r) (idle (apply_message r m).0)

entry-torn :
    (r : Records) (m : RecordMessage) (old : Bytes)
    → m.action ≡ record_action_add
    → is_stale (get r.meta_map (to_lower m.hostname)) m.timestamp m.node_id ≡ false
    → get r.data_map (to_lower m.hostname) ≡ some old
    → get (torn r m) (to_lower m.hostname)
      ≡ some (record { ip = old; timestamp = m.timestamp; node_id = m.node_id })
unfolding read_entries
entry-torn r m old is_add new known =
    let key = to_lower m.hostname in
    get-with_meta (apply_message r m).0.meta_map r.data_map key
    ∙ ground (arith, known, cell-accepted r m is_add new)

module _ (r : Records) (m : RecordMessage) (old : Bytes) (peer : Records) where
  cell-torn :
      IsWellFormed r
      → IsWellFormed (apply_message r m).0
      → get (torn r m) (to_lower m.hostname)
        ≡ some (record { ip = old; timestamp = m.timestamp; node_id = m.node_id })
      → is_stale (get peer.meta_map (to_lower m.hostname)) m.timestamp m.node_id ≡ false
      → cell (merge_entries peer (torn r m)) (to_lower m.hostname)
        ≡ record { address = some old; stamp = some (stamp_of m) }
  unfolding read_entries cell_step get_all_with_meta
  cell-torn w v at new =
      let key = to_lower m.hostname in
      let after = (apply_message r m).0 in
      cell-merge_entries peer (spliced r after) key (spliced-IsWellFormed r after w v)
      ∙ ground (arith, at, new)

  -- If an announcement that a well-formed store accepts, of a hostname that has an address already,
  -- is stored between the two loads of GetAllWithMeta, then the old address is sent under the new
  -- stamp; a peer that has nothing newer takes it, and turns away the announcement when that comes,
  -- so that it keeps the old address under the stamp under which this node has the new one.
  pub merge_entries-torn :
      IsWellFormed r
      → m.action ≡ record_action_add
      → is_stale (get r.meta_map (to_lower m.hostname)) m.timestamp m.node_id ≡ false
      → get r.data_map (to_lower m.hostname) ≡ some old
      → is_stale (get peer.meta_map (to_lower m.hostname)) m.timestamp m.node_id ≡ false
      → Step (to_lower m.hostname) (idle r) (halfway r m)
        × Step (to_lower m.hostname) (halfway r m) (idle (apply_message r m).0)
        × (cell (apply_message r m).0 (to_lower m.hostname)
            ≡ record { address = some m.ip; stamp = some (stamp_of m) })
        × (cell (merge_entries peer (torn r m)) (to_lower m.hostname)
            ≡ record { address = some old; stamp = some (stamp_of m) })
        × (cell (apply_message (merge_entries peer (torn r m)) m).0 (to_lower m.hostname)
            ≡ record { address = some old; stamp = some (stamp_of m) })
  merge_entries-torn w is_add new known newer =
      let at = entry-torn r m old is_add new known in
      let merged = cell-torn w (apply_message-IsWellFormed r m w) at newer in
      (
        stores_data r m,
        stores_meta (to_lower m.hostname) (record r { data_map = (apply_message r m).0.data_map })
            (apply_message r m).0.meta_map,
        cell-accepted r m is_add new,
        merged,
        cell-again (merge_entries peer (torn r m)) m old merged,
      )
