-- ===== src/Cluster/Plugin/Shutdown.antt =====
-- What the shutdown handler leaves of a server.
use joyride.Common.{
  ℕ, ℤ, Bytes, Bool, false, Option, none, some, List, [], ◌∷◌, ◌≡◌, ◌≢◌, refl, sym, ◌∙◌, ap, subst,
  arith, Bool-cases, inl, inr,
}
use joyride.Cluster.Records.{Records}
use joyride.Cluster.Delegate.{Wire, BroadcastQueue}
use joyride.Cluster.Config.{named}
use joyride.Cluster.Manager.{publish, notify_record_add, notify_record_remove}
use joyride.Cluster.Manager.Cycle as Life
use joyride.Cluster.Manager.Cycle.{Cluster, Answer, MemberlistConfig}
use joyride.Cluster.Watcher.{Change, InspectResponse}
use joyride.Cluster.Watcher.Backoff.{second}
use joyride.Cluster.Watcher.Cycle.{Session, Round, stop, close_client, watch_loop}
use joyride.Cluster.Watcher.Cycle.Connections.{SameClient, below, IsOrderly}
use joyride.Cluster.Watcher.Cycle.Tidy.{stop-watch_loop}
use joyride.Cluster.Wiring.{cluster_callback, notified}
use joyride.Cluster.Setup.{Property}
use joyride.Cluster.Setup.Settle.{Env}
use joyride.Cluster.Plugin.{
  stop_manager, DockerCluster, Serving, serving, shutdown_version, plugin_callback, setup, shutdown,
}
use joyride.Cluster.Plugin.Serves.{setup-IsFresh}

module _ {Queue : Type 0} (wire : Wire) (q : BroadcastQueue Queue) where
  -- The same connections, and as much started.
  same_session :
      (shut : Option Bytes) (dc : DockerCluster Queue) (world : Option (Cluster Queue))
      → SameClient dc.session (stop_manager shut dc world).0.session
  same_session shut dc none = record { client = refl; opened = refl; closed = refl; running = refl }
  same_session shut dc (some cm) = record {
    client = refl;
    opened = refl;
    closed = refl;
    running = refl;
  }

  quiet_manager :
      (shut : Option Bytes) (cm : Cluster Queue) (c : Change) (r : Records)
      → plugin_callback wire q c (r, some (Life.stop shut cm).0) ≡ (r, some (Life.stop shut cm).0)
  unfolding plugin_callback cluster_callback notified notify_record_add notify_record_remove publish
      Life.stop
  quiet_manager shut cm c r = elim (Bool-cases c.added) [
    | inl e ↦ ground (arith, e)
    | inr e ↦ ground (arith, e)
  ]

  quiet :
      (shut : Option Bytes) (dc : DockerCluster Queue) (c : Change) (r : Records)
      (world : Option (Cluster Queue))
      → dc.session.watcher.world ≡ world
      → plugin_callback wire q c (r, (stop_manager shut dc world).0.session.watcher.world)
        ≡ (r, (stop_manager shut dc world).0.session.watcher.world)
  unfolding plugin_callback
  quiet shut dc c r none e = rw (e) refl
  quiet shut dc c r (some cm) e = quiet_manager shut cm c r

  stop_again :
      (shut other : Option Bytes) (dc : DockerCluster Queue) (world : Option (Cluster Queue))
      → dc.session.watcher.world ≡ world
      → dc.session.running ≡ false
      → shutdown other (stop_manager shut dc world).0
        ≡ ((stop_manager shut dc world).0, shutdown_version ∷ [])
  unfolding shutdown stop Life.stop
  stop_again shut other dc none e off = rw (off, e) refl
  stop_again shut other dc (some cm) e off = rw (off) refl

  stop-running : (s : Session (Option (Cluster Queue))) → (stop s).running ≡ false
  unfolding stop close_client
  stop-running s = elim (Bool-cases s.running) [
    | inl e ↦ ground (arith, e)
    | inr e ↦ ground (arith, e)
  ]

  module _ (is_domain_name : Bytes → Bool) where
    -- The plugin of a server whose watcher has gone through the rounds, shut down.
    abbrev pub ended : Option Bytes → Serving Queue → List Round → DockerCluster Queue
    ended shut v rs =
        (shutdown shut (record v.plugin {
          session = (watch_loop is_domain_name v.plugin.session second rs).0;
        })).0

    ended-SameClient :
        (shut : Option Bytes) (v : Serving Queue) (rs : List Round)
        → SameClient
            (stop (watch_loop is_domain_name v.plugin.session second rs).0)
            (ended shut v rs).session
    unfolding shutdown
    ended-SameClient shut v rs =
        let s = stop (watch_loop is_domain_name v.plugin.session second rs).0 in
        same_session shut (record v.plugin { session = s }) s.watcher.world

    -- A server that `setup` has left on a host with a name, whose watcher goes through any rounds of its
    -- loop and which is then shut down, is not watching any more, has no connection to Docker left and
    -- has closed each that it opened, once; the callback, if it were called again, would change neither
    -- the records nor the manager; and to shut it down again would change nothing and stop nothing but
    -- the version endpoint. A context that is done among the events of a round is taken to be done at
    -- the head of the next.
    pub shutdown-setup :
        (now : ℕ → ℤ) (inspect : ℕ → Bytes → Option InspectResponse) (env : Env) (name : Bytes)
        (create : MemberlistConfig → Answer ℕ) (props : List Property) (v : Serving Queue)
        (rs : List Round) (shut other : Option Bytes) (c : Change) (r : Records)
        → name ≢ []
        → setup wire q now inspect env (named name) create props ≡ serving v
        → IsOrderly rs
        → ((ended shut v rs).session.running ≡ false)
          × ((ended shut v rs).session.client ≡ none)
          × ((ended shut v rs).session.closed ≡ below (ended shut v rs).session.opened)
          × (plugin_callback wire q c (r, (ended shut v rs).session.watcher.world)
              ≡ (r, (ended shut v rs).session.watcher.world))
          × (shutdown other (ended shut v rs) ≡ (ended shut v rs, shutdown_version ∷ []))
    unfolding shutdown
    shutdown-setup now inspect env name create props v rs shut other c r ne e o =
        let (w, fresh) = setup-IsFresh wire q now inspect env create name props v ne e in
        let s = stop (watch_loop is_domain_name v.plugin.session second rs).0 in
        let dc : DockerCluster Queue = record v.plugin { session = s } in
        let same = ended-SameClient shut v rs in
        let (no_client, all_closed) =
          subst
            (λ t.
              ((stop (watch_loop is_domain_name t second rs).0).client ≡ none)
              × ((stop (watch_loop is_domain_name t second rs).0).closed
                  ≡ below (stop (watch_loop is_domain_name t second rs).0).opened))
            (sym fresh) (stop-watch_loop is_domain_name w inspect rs o) in
        let off = stop-running (watch_loop is_domain_name v.plugin.session second rs).0 in
        (
          same.running ∙ off,
          same.client ∙ no_client,
          same.closed ∙ (all_closed ∙ ap below (sym same.opened)),
          quiet shut dc c r s.watcher.world refl,
          stop_again shut other dc s.watcher.world refl off,
        )
