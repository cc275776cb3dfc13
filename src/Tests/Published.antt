-- ===== src/Tests/Published.antt =====
-- A container of one node that resolves on another, and a node that joins.
use joyride.Common.{
  pos, Bytes, codes, same, contains, to_lower, true, false, Option, none, some, List, [], ◌∷◌, ◌++◌,
  length, map, ◌≡◌, refl, arith, if◌then◌else◌,
}
use joyride.Common.Map.{get}
use joyride.Cluster.Message.{RecordMessage}
use joyride.Cluster.Records.{new_records, lookup, is_stale}
use joyride.Cluster.Delegate.{Wire, BroadcastQueue, Delegate, running}
use joyride.Cluster.Delegate.Inbox.{notify_all, process_rounds}
use joyride.Cluster.Manager.{Manager}
use joyride.Cluster.Watcher.{Watcher, update_container}
use joyride.Cluster.Watcher.Update.{named_by}
use joyride.Cluster.Wiring.{cluster_callback}
use joyride.Cluster.Wiring.Queued.{queue_all, announcements, AllSend, managing}
use joyride.Cluster.Wiring.Published.{update_container-published}

abbrev queue : BroadcastQueue (List Bytes)
queue = record {
  empty = [];
  queue_broadcast = λ q buf. q ++ (buf ∷ []);
  get_broadcasts = λ q overhead limit. ([], q);
}

abbrev local : Delegate (List Bytes)
local = record {
  node_id = codes "a";
  records = new_records;
  broadcasts = [];
  msg_chan = [];
  loop = running;
}

abbrev peer : Delegate (List Bytes)
peer = record local { node_id = codes "b" }

abbrev manager : Manager (List Bytes)
manager = record {
  config = record {
    enabled = true;
    port = pos 7946;
    seeds = [];
    node_name = codes "a";
    bind_addr = codes "0.0.0.0";
    secret_key = [];
    discovery_port = pos 8889;
  };
  delegate = none;
  num_members = some 2;
}

abbrev hosts : List Bytes
hosts = codes "App.local" ∷ codes "db" ∷ []

abbrev sent : List RecordMessage
sent = announcements (codes "a") (codes "10.0.0.1") (pos 5) hosts

-- A codec for these two announcements, by their hostnames.
abbrev enc : RecordMessage → Bytes
enc m = m.hostname

abbrev decode : List RecordMessage → Bytes → Option RecordMessage
decode [] buf = none
decode (m ∷ ms) buf = if same m.hostname buf then some m else decode ms buf

abbrev wire : Wire
wire = record {
  encode_record_message = λ m. some (enc m);
  decode_record_message = decode sent;
  encode_full_state = λ s. none;
  decode_full_state = λ buf. none;
}

abbrev watcher : Watcher (Manager (List Bytes))
watcher = record {
  host_ip = codes "10.0.0.1";
  labels = [];
  records = new_records;
  world = managing manager local;
  callback = some (cluster_callback wire queue);
  containers = [];
  now = λ n. pos 5;
  ticks = 0;
}

sent-AllSend : AllSend wire enc sent
unfolding same
sent-AllSend = (
  record { encodes = refl; not_empty = omega arith; decodes = refl },
  (record { encodes = refl; not_empty = omega arith; decodes = refl }, tt),
)

named : named_by hosts (codes "app.LOCAL") ≡ true
unfolding contains same to_lower
named = refl

nothing_newer :
    is_stale (get peer.records.meta_map (to_lower (codes "app.LOCAL"))) (pos 5) (codes "a") ≡ false
unfolding new_records is_stale get
nothing_newer = refl

not_known : get watcher.containers (codes "1") ≡ none
unfolding get
not_known = refl

update_container-published_example :
    (lookup (update_container watcher (codes "1") hosts).records (codes "app.LOCAL")
      ≡ some watcher.host_ip)
    × ((update_container watcher (codes "1") hosts).world
        ≡ managing manager (record local {
          records = (update_container watcher (codes "1") hosts).records;
          broadcasts = queue_all queue [] (map enc sent);
        }))
    × (lookup
          (process_rounds (length sent) (notify_all wire peer (map enc sent))).records
          (codes "app.LOCAL")
        ≡ some watcher.host_ip)
update_container-published_example =
    update_container-published wire queue enc watcher manager local peer (codes "1")
      (codes "App.local") (codes "db" ∷ []) (codes "app.LOCAL") not_known refl refl sent-AllSend
      (omega arith) refl refl named nothing_newer
