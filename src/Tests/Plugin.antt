-- ===== src/Tests/Plugin.antt =====
-- setup of docker-cluster in a cluster, and its shutdown.
use joyride.Common.{
  ℕ, ℤ, pos, Bytes, codes, same, Bool, true, false, Option, none, List, [], ◌∷◌, ◌++◌, ◌≡◌, ◌≢◌,
  refl, if◌then◌else◌, some, to_lower, contains, length, map, arith,
}
use joyride.Common.Map.{get}
use joyride.Cluster.Message.{RecordMessage}
use joyride.Cluster.Records.{new_records, lookup, is_stale}
use joyride.Cluster.Delegate.{Wire, BroadcastQueue, Delegate, running}
use joyride.Cluster.Delegate.Inbox.{notify_all, process_rounds}
use joyride.Cluster.Wiring.Queued.{queue_all, announcements, AllSend}
use joyride.Cluster.Watcher.Update.{named_by}
use joyride.Cluster.Plugin.Published.{queued, setup-published}
use joyride.Cluster.Config.{named, new_cluster_config, validate}
use joyride.Cluster.Manager.{new_cluster_manager}
use joyride.Cluster.Manager.Cycle as Life
use joyride.Cluster.Manager.Cycle.{new_cluster, Answer, fails, gives, MemberlistConfig}
use joyride.Cluster.Watcher.{Change, InspectResponse, set_callback, update_container}
use joyride.Cluster.Watcher.Events.{cancelled}
use joyride.Cluster.Watcher.Cycle.{Round, no_ping, pinged, new_session, start}
use joyride.Cluster.Watcher.Cycle.Connections.{below}
use joyride.Cluster.Setup.{Settings, default_settings, bind, is_yes, set_all}
use joyride.Cluster.Setup.Settle.{
  Env, when_set, env_serf, overrides, override_all, settle, parse_config,
}
use joyride.Cluster.Version.{serve_version_http}
use joyride.Cluster.Plugin.{
  DockerCluster, Serving, serving, shutdown_version, version_address, start_watcher, start_manager,
  plugin_callback, use_manager, new_plugin, setup, shutdown,
}
use joyride.Cluster.Plugin.Serves.{clustered, Told, setup-Told}
use joyride.Cluster.Plugin.Shutdown.{ended, shutdown-setup}

abbrev queue : BroadcastQueue (List Bytes)
queue = record {
  empty = [];
  queue_broadcast = λ q buf. q ++ (buf ∷ []);
  get_broadcasts = λ q overhead limit. ([], q);
}

abbrev hosts : List Bytes
hosts = codes "App.local" ∷ codes "db" ∷ []

abbrev sent : List RecordMessage
sent = announcements (codes "a") (codes "10.0.0.1") (pos 0) hosts

-- A codec for these two announcements, by their hostnames.
abbrev enc : RecordMessage → Bytes
enc m = m.hostname

abbrev decode : List RecordMessage → Bytes → Option RecordMessage
decode [] buf = none
decode (m ∷ ms) buf = if same m.hostname buf then some m else decode ms buf

abbrev wire : Wire
wire = record {
  encode_record_message = λ m. some (enc m);
  decode_record_message = decode sent;
  encode_full_state = λ s. none;
  decode_full_state = λ buf. none;
}

sent-AllSend : AllSend wire enc sent
unfolding same
sent-AllSend = (
  record { encodes = refl; not_empty = omega arith; decodes = refl },
  (record { encodes = refl; not_empty = omega arith; decodes = refl }, tt),
)

abbrev now : ℕ → ℤ
now n = pos n

abbrev inspect : ℕ → Bytes → Option InspectResponse
inspect n id = none

abbrev is_domain_name : Bytes → Bool
is_domain_name name = true

-- A node of a cluster.
abbrev env : Env
env key =
    if same key (codes "HOSTIP")
    then codes "10.0.0.1"
    else if same key (codes "CLUSTER_ENABLED")
    then codes "yes"
    else []

abbrev one_member : MemberlistConfig → Answer ℕ
one_member c = gives 1

abbrev busy : MemberlistConfig → Answer ℕ
busy c = fails (codes "address in use")

abbrev settings : Settings
settings = record default_settings {
  host_ip = codes "10.0.0.1";
  labels = codes "coredns.host.name" ∷ codes "joyride.host.name" ∷ [];
  cluster = record new_cluster_config { enabled = true; node_name = codes "a" };
}

has_name : codes "a" ≢ []
has_name h = cc

setup-Told_example :
    Told wire queue now inspect env busy
      (parse_config env (named (codes "a")) [])
      (setup wire queue now inspect env (named (codes "a")) busy [])
setup-Told_example = setup-Told wire queue now inspect env busy (codes "a") [] has_name

abbrev plugin : DockerCluster (List Bytes)
plugin = clustered wire queue now inspect env one_member settings 1

abbrev node : Serving (List Bytes)
node = record {
  plugin = record plugin { session = (start plugin.session).0 };
  joining = true;
  watching = true;
  version_server = serve_version_http (version_address env);
}

node-serving : setup wire queue now inspect env (named (codes "a")) one_member [] ≡ serving node
unfolding setup parse_config set_all bind override_all overrides when_set settle validate
    default_settings new_cluster_config same use_manager start_manager start_watcher new_plugin
    env_serf is_yes to_lower new_cluster_manager Life.start new_cluster set_callback new_session
    start
node-serving = refl

-- The daemon does not answer, then it does, and the context ends.
abbrev rounds : List Round
rounds =
    record { done = false; attempt = no_ping; listed = none; selected = []; cut = none }
    ∷ record {
      done = false;
      attempt = pinged;
      listed = some [];
      selected = cancelled ∷ [];
      cut = none;
    }
    ∷ record { done = true; attempt = pinged; listed = none; selected = []; cut = none }
    ∷ []

abbrev late : Change
late = record { hostname = codes "h"; ip = codes "10.0.0.1"; added = true; timestamp = pos 9 }

shutdown-setup_example :
    ((ended wire queue is_domain_name none node rounds).session.running ≡ false)
    × ((ended wire queue is_domain_name none node rounds).session.client ≡ none)
    × ((ended wire queue is_domain_name none node rounds).session.closed
        ≡ below (ended wire queue is_domain_name none node rounds).session.opened)
    × (plugin_callback wire queue late
          (new_records, (ended wire queue is_domain_name none node rounds).session.watcher.world)
        ≡ (new_records, (ended wire queue is_domain_name none node rounds).session.watcher.world))
    × (shutdown none (ended wire queue is_domain_name none node rounds)
        ≡ (ended wire queue is_domain_name none node rounds, shutdown_version ∷ []))
shutdown-setup_example =
    shutdown-setup wire queue is_domain_name now inspect env (codes "a") one_member [] node rounds
      none none late new_records has_name node-serving (refl, (refl, (refl, tt)))

abbrev peer : Delegate (List Bytes)
peer = record {
  node_id = codes "b";
  records = new_records;
  broadcasts = [];
  msg_chan = [];
  loop = running;
}

db-named : named_by hosts (codes "DB") ≡ true
unfolding contains same to_lower
db-named = refl

nothing_newer :
    is_stale (get peer.records.meta_map (to_lower (codes "DB"))) (now 0) (codes "a") ≡ false
unfolding new_records is_stale get
nothing_newer = refl

setup-published_example :
    (lookup (update_container node.plugin.session.watcher (codes "1") hosts).records (codes "DB")
      ≡ some (codes "10.0.0.1"))
    × (queued (update_container node.plugin.session.watcher (codes "1") hosts).world
        ≡ some (queue_all queue [] (map enc sent)))
    × (lookup
          (process_rounds (length sent) (notify_all wire peer (map enc sent))).records
          (codes "DB")
        ≡ some (codes "10.0.0.1"))
unfolding new_plugin
setup-published_example =
    setup-published wire queue now inspect env one_member enc (codes "a") [] node peer (codes "1")
      (codes "App.local") (codes "db" ∷ []) (codes "DB") has_name node-serving refl sent-AllSend
      (omega arith) refl refl db-named nothing_newer
