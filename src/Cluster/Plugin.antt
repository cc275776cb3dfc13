-- ===== src/Cluster/Plugin.antt =====
-- plugins/docker-cluster/setup.go, setup and its shutdown handler: the parts are made, joined and
-- started. DNS itself and the HTTP server of the version endpoint are outside.
pub mod Serves
pub mod Shutdown
pub mod Published
use joyride.Common.{
  ℕ, ℤ, Bytes, codes, same, Bool, true, false, Option, none, some, List, [], ◌∷◌, ◌++◌, map,
  if◌then◌else◌,
}
use joyride.Cluster.Records.{Records, new_records}
use joyride.Cluster.Delegate.{Wire, BroadcastQueue}
use joyride.Cluster.Config.{ConfigError, Hostname}
use joyride.Cluster.Manager.{Created, disabled, refused, created, new_cluster_manager}
use joyride.Cluster.Manager.Cycle as Life
use joyride.Cluster.Manager.Cycle.{
  Cluster, Answer, MemberlistConfig, Effect, Started, started, not_created, nil_delegate,
  new_cluster,
}
use joyride.Cluster.Watcher.{
  Change, RecordChangeCallback, InspectResponse, new_docker_watcher, set_callback,
}
use joyride.Cluster.Watcher.Cycle.{Session, new_session, start, stop}
use joyride.Cluster.Wiring.{cluster_callback}
use joyride.Cluster.Version.{Server, serve_version_http}
use joyride.Cluster.Setup.{Property, Settings, SetupError, ok, err}
use joyride.Cluster.Setup.Settle.{Env, parse_config}

-- The watcher is in the session, the store in the watcher, and what the watcher's callback reaches is
-- the cluster manager, none for nil.
pub record DockerCluster (Queue : Type 0) : Type 0 where
  pub settings : Settings
  pub session : Session (Option (Cluster Queue))

-- Once the server is up: whether the goroutines of Join and of watchLoop were started, and the server
-- of the version endpoint.
pub record Serving (Queue : Type 0) : Type 0 where
  pub plugin : DockerCluster Queue
  pub joining : Bool
  pub watching : Bool
  pub version_server : Server

-- The errors of `parseConfig`, of `NewClusterManager` and of its `Start`, or a use of a nil manager or
-- of a nil delegate, or the server.
pub data Outcome (Queue : Type 0) : Type 0 where
  misconfigured : SetupError → Outcome Queue
  no_manager : ConfigError → Outcome Queue
  not_started : Bytes → Outcome Queue
  nil_reference : Outcome Queue
  serving : Serving Queue → Outcome Queue

-- What the shutdown handler does behind the watcher's Stop.
pub data Step (Queue : Type 0) : Type 0 where
  of_manager : Effect Queue → Step Queue
  shutdown_version : Step Queue

unfoldable pub version_address : Env → Bytes
version_address env =
    let addr = env (codes "COREDNS_VERSION_PORT") in if same addr [] then codes ":8081" else addr

module _ {Queue : Type 0} where
  -- `dc.ClusterManager = cm`
  abbrev pub with_manager : DockerCluster Queue → Cluster Queue → DockerCluster Queue
  with_manager dc cm = record dc {
    session = record dc.session { watcher = record dc.session.watcher { world = some cm } };
  }

  unfoldable pub start_watcher : Env → Bool → DockerCluster Queue → Outcome Queue
  start_watcher env joining dc =
      let (s, watching) = start dc.session in
      serving (record {
        plugin = record dc { session = s };
        joining = joining;
        watching = watching;
        version_server = serve_version_http (version_address env);
      })

  unfoldable pub start_manager : Env → DockerCluster Queue → Cluster Queue × Started → Outcome Queue
  start_manager env dc (cm, started) = start_watcher env true (with_manager dc cm)
  start_manager env dc (cm, not_created e) = not_started e
  start_manager env dc (cm, nil_delegate) = nil_reference

  module _ (wire : Wire) (q : BroadcastQueue Queue) where
    -- The callback on the manager that the plugin has.
    unfoldable pub plugin_callback : RecordChangeCallback (Option (Cluster Queue))
    plugin_callback c (r, none) = (r, none)
    plugin_callback c (r, some cm) =
        let (r', manager) = cluster_callback wire q c (r, cm.manager) in
        (r', some (record cm { manager = manager }))

    abbrev pub with_callback : DockerCluster Queue → DockerCluster Queue
    with_callback dc = record dc {
      session = record dc.session { watcher = set_callback dc.session.watcher plugin_callback };
    }

    -- `create` is `memberlist.Create`.
    unfoldable pub use_manager :
        Env → (MemberlistConfig → Answer ℕ) → DockerCluster Queue → Created Queue → Outcome Queue
    use_manager env create dc disabled = nil_reference
    use_manager env create dc (refused e) = no_manager e
    use_manager env create dc (created m) =
        start_manager env (with_callback dc) (Life.start create (new_cluster m))

    -- The plugin that `parseConfig` returns; `now` is the clock, `inspect` what Docker answers.
    unfoldable pub new_plugin :
        (ℕ → ℤ) → (ℕ → Bytes → Option InspectResponse) → Settings → DockerCluster Queue
    new_plugin now inspect s = record {
      settings = s;
      session = new_session (new_docker_watcher s.host_ip s.labels new_records none now) inspect;
    }

    unfoldable pub setup :
        (ℕ → ℤ)
        → (ℕ → Bytes → Option InspectResponse)
        → Env
        → Hostname
        → (MemberlistConfig → Answer ℕ)
        → List Property
        → Outcome Queue
    setup now inspect env hostname create props = elim (parse_config env hostname props) [
      | err e ↦ misconfigured e
      | ok s ↦
          let dc = new_plugin now inspect s in
          if s.cluster.enabled
          then use_manager env create dc
              (new_cluster_manager q hostname (some s.cluster) dc.session.watcher.records)
          else start_watcher env false dc
    ]

  abbrev pub stop_manager :
      Option Bytes
      → DockerCluster Queue
      → Option (Cluster Queue)
      → DockerCluster Queue × List (Step Queue)
  stop_manager shut dc none = (dc, [])
  stop_manager shut dc (some cm) =
      let (cm', effects, e) = Life.stop shut cm in (with_manager dc cm', map of_manager effects)

  -- The shutdown handler, which returns nil; `shut` is the error of memberlist's Shutdown.
  unfoldable pub shutdown :
      Option Bytes → DockerCluster Queue → DockerCluster Queue × List (Step Queue)
  shutdown shut dc =
      let session = stop dc.session in
      let (dc', steps) =
        stop_manager shut (record dc { session = session }) session.watcher.world in
      (dc', steps ++ (shutdown_version ∷ []))
