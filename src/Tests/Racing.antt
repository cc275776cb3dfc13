-- ===== src/Tests/Racing.antt =====
-- GetAllWithMeta while an announcement is stored.
use joyride.Common.{codes, same, less, to_lower, false, some, ◌≡◌, refl}
use joyride.Common.Map.{get, put}
use joyride.Cluster.Message.{RecordMessage}
use joyride.Cluster.Records.{
  Records, new_records, add_with_meta, apply_message, get_all_with_meta, is_stale, rejects,
}
use joyride.Cluster.Records.Cell.{cell, stamp_of}
use joyride.Cluster.Records.WellFormed.{IsWellFormed, start, next, applying, Reach-IsWellFormed}
use joyride.Cluster.Delegate.{merge_entries}
use joyride.Cluster.Delegate.Racing.{
  Store, idle, shared, halfway, Step, stores_data, stores_meta, Run, nothing, more, read_entries,
  read_entries-whole,
}
use joyride.Cluster.Delegate.Racing.Torn.{torn, merge_entries-torn}
use joyride.Tests.Data.{announcement, app_a, app_b, app}

abbrev knows_a : Records
knows_a = (apply_message new_records app_a).0

abbrev db : RecordMessage
db = announcement "db" "10.0.0.3" 6 "a"

abbrev with_db : Store
with_db = idle (apply_message knows_a db).0

other_name : same (to_lower db.hostname) app ≡ false
unfolding same to_lower
other_name = refl

storing_db : Run app (idle knows_a) with_db
storing_db =
    more (more nothing (stores_data knows_a db) other_name)
      (stores_meta (to_lower db.hostname)
        (record knows_a { data_map = (apply_message knows_a db).0.data_map })
        (apply_message knows_a db).0.meta_map)
      other_name

read_entries-whole_example :
    (get (read_entries (idle knows_a) with_db) app
      ≡ get (get_all_with_meta (shared (idle knows_a))) app)
    × (get (read_entries (idle knows_a) with_db) app ≡ get (get_all_with_meta (shared with_db)) app)
read_entries-whole_example = read_entries-whole app (idle knows_a) with_db storing_db tt

knows_a-IsWellFormed : IsWellFormed knows_a
knows_a-IsWellFormed = Reach-IsWellFormed (next start (applying app_a))

app_b-newer :
    is_stale (get knows_a.meta_map (to_lower app_b.hostname)) app_b.timestamp app_b.node_id ≡ false
unfolding apply_message add_with_meta new_records is_stale rejects to_lower get put same less
app_b-newer = refl

app-known : get knows_a.data_map (to_lower app_b.hostname) ≡ some (codes "10.0.0.1")
unfolding apply_message add_with_meta new_records is_stale rejects to_lower get put same less
app-known = refl

app_b-unknown :
    is_stale (get new_records.meta_map (to_lower app_b.hostname)) app_b.timestamp app_b.node_id
    ≡ false
unfolding new_records is_stale get
app_b-unknown = refl

merge_entries-torn_example :
    Step (to_lower app_b.hostname) (idle knows_a) (halfway knows_a app_b)
    × Step (to_lower app_b.hostname) (halfway knows_a app_b) (idle (apply_message knows_a app_b).0)
    × (cell (apply_message knows_a app_b).0 (to_lower app_b.hostname)
        ≡ record { address = some app_b.ip; stamp = some (stamp_of app_b) })
    × (cell (merge_entries new_records (torn knows_a app_b)) (to_lower app_b.hostname)
        ≡ record { address = some (codes "10.0.0.1"); stamp = some (stamp_of app_b) })
    × (cell
          (apply_message (merge_entries new_records (torn knows_a app_b)) app_b).0
          (to_lower app_b.hostname)
        ≡ record { address = some (codes "10.0.0.1"); stamp = some (stamp_of app_b) })
merge_entries-torn_example =
    merge_entries-torn knows_a app_b (codes "10.0.0.1") new_records knows_a-IsWellFormed refl
      app_b-newer app-known app_b-unknown
