-- ===== src/Cluster/Records/Cell.antt =====
-- What a store holds for one hostname, and what each message does to it.
use joyride.Common.{
  Bytes, same, same_iff, to_lower, Option, none, some, ◌==◌, if◌then◌else◌, ◌≡◌, arith, is_some,
}
use joyride.Common.Map.{get}
use joyride.Common.Map.Laws.{get-put, get-del}
use joyride.Cluster.Message.{RecordMessage, record_action_add, record_action_remove}
use joyride.Cluster.Records.{
  RecordMeta, Records, is_stale, add_with_meta, remove_with_meta, apply_message,
}

-- The address and the stamp of one hostname; either may be missing without the other.
pub record Cell : Type 0 where
  pub address : Option Bytes
  pub stamp : Option RecordMeta

abbrev pub cell : Records → Bytes → Cell
cell r h = record { address = get r.data_map h; stamp = get r.meta_map h }

abbrev pub stamp_of : RecordMessage → RecordMeta
stamp_of m = record { timestamp = m.timestamp; node_id = m.node_id }

-- Last write wins at one hostname. A removal leaves nothing behind, no stamp either.
unfoldable pub cell_step : Cell → RecordMessage → Cell
cell_step c m =
    if m.action == record_action_add
    then (if is_stale c.stamp m.timestamp m.node_id
        then c
        else record { address = some m.ip; stamp = some (stamp_of m) })
    else if m.action == record_action_remove
    then (if is_some c.address
        then (if is_stale c.stamp m.timestamp m.node_id
            then c
            else record { address = none; stamp = none })
        else c)
    else c

-- One message, at every hostname.
abbrev pub step_at : Bytes → Cell → RecordMessage → Cell
step_at h c m = if same (to_lower m.hostname) h then cell_step c m else c

pub cell-apply_message :
    (r : Records) (m : RecordMessage) (h : Bytes)
    → cell (apply_message r m).0 h ≡ step_at h (cell r h) m
unfolding apply_message add_with_meta remove_with_meta cell_step
cell-apply_message r m h = ground (
  arith,
  get-put r.data_map (to_lower m.hostname) h m.ip,
  get-put r.meta_map (to_lower m.hostname) h (stamp_of m),
  get-del r.data_map (to_lower m.hostname) h,
  get-del r.meta_map (to_lower m.hostname) h,
  same_iff (to_lower m.hostname) h,
)
