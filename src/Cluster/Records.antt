-- ===== src/Cluster/Records.antt =====
-- plugins/docker-cluster/records.go: the record store. A method runs under the store's mutex and
-- publishes its maps by `Store`, so it is one function from the old snapshots to the new ones.
pub mod Stamp
pub mod Cell
pub mod Issued
pub mod Converge
pub mod Behaviour
pub mod Newest
pub mod Removal
pub mod Local
pub mod WellFormed
use joyride.Common.{
  ℕ, pos, ◌<ℤ◌, ◌==ℤ◌, ℤ, Bytes, same, less, to_lower, Bool, true, false, not, ◌&&◌, ◌||◌, Option,
  none, some, List, [], ◌∷◌, length, ◌==◌, if◌then◌else◌,
}
use joyride.Common.Map.{Map, get, put, del, has}
use joyride.Cluster.Message.{RecordMessage, RecordEntry, record_action_add, record_action_remove}

pub record RecordMeta : Type 0 where
  pub timestamp : ℤ
  pub node_id : Bytes

pub record Records : Type 0 where
  pub data_map : Map Bytes
  pub meta_map : Map RecordMeta

unfoldable pub new_records : Records
new_records = record { data_map = []; meta_map = [] }

unfoldable pub add : Records → Bytes → Bytes → Records
add r hostname ip =
    let hostname = to_lower hostname in record r { data_map = put r.data_map hostname ip }

unfoldable pub remove : Records → Bytes → Records
remove r hostname =
    let hostname = to_lower hostname in
    if not (has r.data_map hostname) then r else record r { data_map = del r.data_map hostname }

unfoldable pub lookup : Records → Bytes → Option Bytes
lookup r hostname = get r.data_map (to_lower hostname)

unfoldable pub get_all : Records → Map Bytes
get_all r = r.data_map

unfoldable pub count : Records → ℕ
count r = length r.data_map

-- The two tests of an existing stamp, in both `WithMeta` methods: true where the method gives up.
unfoldable pub rejects : RecordMeta → ℤ → Bytes → Bool
rejects existing timestamp node_id =
    if timestamp <ℤ existing.timestamp
    then true
    else existing.timestamp ==ℤ timestamp && not (less existing.node_id node_id)

unfoldable pub is_stale : Option RecordMeta → ℤ → Bytes → Bool
unfolding rejects
is_stale none timestamp node_id = false
is_stale (some existing) timestamp node_id = rejects existing timestamp node_id

unfoldable pub add_with_meta : Records → Bytes → Bytes → ℤ → Bytes → Records × Bool
add_with_meta r hostname ip timestamp node_id =
    let hostname = to_lower hostname in
    if is_stale (get r.meta_map hostname) timestamp node_id then (r, false) else (
      record {
        data_map = put r.data_map hostname ip;
        meta_map = put r.meta_map hostname (record { timestamp = timestamp; node_id = node_id });
      },
      true,
    )

unfoldable pub remove_with_meta : Records → Bytes → ℤ → Bytes → Records × Bool
remove_with_meta r hostname timestamp node_id =
    let hostname = to_lower hostname in
    if not (has r.data_map hostname)
    then (r, false)
    else if is_stale (get r.meta_map hostname) timestamp node_id
    then (r, false)
    else (record { data_map = del r.data_map hostname; meta_map = del r.meta_map hostname }, true)

-- `meta := currentMeta[hostname]`: the zero value where there is none.
abbrev pub meta_or_zero : Option RecordMeta → RecordMeta
meta_or_zero none = record { timestamp = pos 0; node_id = [] }
meta_or_zero (some m) = m

abbrev pub entry_of : Bytes → Option RecordMeta → RecordEntry
entry_of ip m =
    let meta = meta_or_zero m in
    record { ip = ip; timestamp = meta.timestamp; node_id = meta.node_id }

-- The loop over `currentData`.
unfoldable pub with_meta : Map RecordMeta → Map Bytes → Map RecordEntry
with_meta meta [] = []
with_meta meta ((hostname, ip) ∷ rest) =
    (hostname, entry_of ip (get meta hostname)) ∷ with_meta meta rest

unfoldable pub get_all_with_meta : Records → Map RecordEntry
get_all_with_meta r = with_meta r.meta_map r.data_map

unfoldable pub apply_message : Records → RecordMessage → Records × Bool
apply_message r msg =
    if msg.action == record_action_add
    then add_with_meta r msg.hostname msg.ip msg.timestamp msg.node_id
    else if msg.action == record_action_remove
    then remove_with_meta r msg.hostname msg.timestamp msg.node_id
    else (r, false)

unfoldable pub get_meta : Records → Bytes → Option RecordMeta
get_meta r hostname = get r.meta_map (to_lower hostname)
