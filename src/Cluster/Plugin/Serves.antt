-- ===== src/Cluster/Plugin/Serves.antt =====
-- What setup comes to.
use joyride.Common.{
  ℕ, ℤ, Bytes, Bool, true, false, Option, none, some, is_some, List, [], ◌≡◌, ◌≢◌, refl, sym, ◌∙◌,
  subst, arith, Bool-cases, inl, inr, if◌then◌else◌,
}
use joyride.Cluster.Records.{Records}
use joyride.Cluster.Delegate.{Wire, BroadcastQueue, new_cluster_delegate}
use joyride.Cluster.Config.{Hostname, named, valid, validate}
use joyride.Cluster.Config.Valid.{complete}
use joyride.Cluster.Manager.{Manager, created, new_cluster_manager}
use joyride.Cluster.Manager.Cycle as Life
use joyride.Cluster.Manager.Cycle.{
  Cluster, Answer, fails, gives, MemberlistConfig, memberlist_config, started, not_created,
  new_cluster, started_with,
}
use joyride.Cluster.Watcher.{Watcher, InspectResponse, new_docker_watcher, set_callback}
use joyride.Cluster.Setup.{Property, Settings, Result, ok, err}
use joyride.Cluster.Watcher.Cycle.{new_session, start}
use joyride.Cluster.Setup.Settle.{Env, parse_config}
use joyride.Cluster.Setup.Checked.{parse_config-IsSettled}
use joyride.Cluster.Plugin.{
  DockerCluster, Serving, Outcome, misconfigured, no_manager, not_started, nil_reference, serving,
  start_watcher, start_manager, with_manager, with_callback, use_manager, new_plugin, setup,
}

module _ {Queue : Type 0} (wire : Wire) (q : BroadcastQueue Queue) where
  -- The manager of a plugin with these settings, before and after its `Start`.
  abbrev pub manager_for : Settings → Records → Manager Queue
  manager_for s r = record {
    config = s.cluster;
    delegate = some (new_cluster_delegate q s.cluster.node_name r);
    num_members = none;
  }

  new_cluster_manager-valid :
      (hostname : Hostname) (s : Settings) (r : Records)
      → s.cluster.enabled ≡ true
      → validate hostname s.cluster ≡ valid s.cluster
      → new_cluster_manager q hostname (some s.cluster) r ≡ created (manager_for s r)
  unfolding new_cluster_manager
  new_cluster_manager-valid hostname s r on v = rw (v, on) refl

  module _ (now : ℕ → ℤ) (inspect : ℕ → Bytes → Option InspectResponse) (env : Env)
      (create : MemberlistConfig → Answer ℕ) where
    -- The plugin with settings `s`, with its callback, and with a manager that memberlist has given
    -- `n` members.
    abbrev called_back : Settings → DockerCluster Queue
    called_back s = with_callback wire q (new_plugin wire q now inspect s)

    abbrev pub clustered : Settings → ℕ → DockerCluster Queue
    clustered s n =
        let r = (called_back s).session.watcher.records in
        with_manager (called_back s) (
          started_with (new_cluster (manager_for s r)) n
            (new_cluster_delegate q s.cluster.node_name r))

    abbrev pub joined_by : Settings → Answer ℕ → Outcome Queue
    joined_by s (fails e) = not_started e
    joined_by s (gives n) = start_watcher env true (clustered s n)

    abbrev run_with : Settings → Outcome Queue
    run_with s =
        if s.cluster.enabled
        then joined_by s (create (memberlist_config s.cluster))
        else start_watcher env false (new_plugin wire q now inspect s)

    abbrev pub outcome_of : Result Settings → Outcome Queue
    outcome_of (err e) = misconfigured e
    outcome_of (ok s) = run_with s

    start_joined :
        (s : Settings) (r : Records) (a : Answer ℕ)
        → create (memberlist_config s.cluster) ≡ a
        → r ≡ (called_back s).session.watcher.records
        → start_manager env (called_back s) (Life.start create (new_cluster (manager_for s r)))
          ≡ joined_by s a
    unfolding Life.start start_manager new_cluster
    start_joined s r (fails e) c p = ground (arith, c, p)
    start_joined s r (gives n) c p = ground (arith, c, p)

    setup_by :
        (hostname : Hostname) (props : List Property) (r : Result Settings)
        → parse_config env hostname props ≡ r
        → ((s : Settings) → r ≡ ok s → validate hostname s.cluster ≡ valid s.cluster)
        → setup wire q now inspect env hostname create props ≡ outcome_of r
    unfolding setup use_manager set_callback new_plugin
    setup_by hostname props (err e) p v = ground (arith, p)
    setup_by hostname props (ok s) p v = elim (Bool-cases s.cluster.enabled) [
      | inl on ↦
          let dc = new_plugin wire q now inspect s in
          let made =
            new_cluster_manager-valid hostname s dc.session.watcher.records on (v s refl) in
          ground (
            arith,
            p,
            on,
            made,
            start_joined s dc.session.watcher.records (create (memberlist_config s.cluster)) refl
                refl,
          )
      | inr off ↦ ground (arith, p, off)
    ]

    -- On a host with a name, `setup` is as its parts are.
    pub setup-outcome_of :
        (name : Bytes) (props : List Property)
        → name ≢ []
        → setup wire q now inspect env (named name) create props
          ≡ outcome_of (parse_config env (named name) props)
    setup-outcome_of name props ne =
        setup_by (named name) props (parse_config env (named name) props) refl (λ s p.
          complete (named name) s.cluster (parse_config-IsSettled env name props s ne p).cluster)

    -- The settings are read, they enable clustering, and memberlist refuses with that error.
    abbrev pub Refuses : Result Settings → Bytes → Type 0
    Refuses r x =
        (s : Settings) × (r ≡ ok s)
        × (s.cluster.enabled ≡ true)
        × (create (memberlist_config s.cluster) ≡ fails x)

    -- What an outcome of the parts is.
    abbrev pub Told : Result Settings → Outcome Queue → Type 0
    Told r (misconfigured e) = r ≡ err e
    Told r (no_manager e) = ⊥
    Told r (not_started x) = Refuses r x
    Told r nil_reference = ⊥
    Told r (serving v) =
        (r ≡ ok v.plugin.settings)
        × (v.watching ≡ true)
        × (v.joining ≡ v.plugin.settings.cluster.enabled)
        × (is_some v.plugin.session.watcher.world ≡ v.plugin.settings.cluster.enabled)

    joined_by-Told :
        (s : Settings) (a : Answer ℕ)
        → s.cluster.enabled ≡ true
        → create (memberlist_config s.cluster) ≡ a
        → Told (ok s) (joined_by s a)
    unfolding start_watcher start new_plugin new_session
    joined_by-Told s (fails x) on c = (s, refl, on, c)
    joined_by-Told s (gives n) on c = (refl, refl, sym on, sym on)

    Told-outcome_of : (r : Result Settings) → Told r (outcome_of r)
    unfolding start_watcher start new_plugin new_session new_docker_watcher
    Told-outcome_of (err e) = refl
    Told-outcome_of (ok s) =
        let joined = joined_by s (create (memberlist_config s.cluster)) in
        let alone = start_watcher env false (new_plugin wire q now inspect s) in
        let told = λ (b : Bool). Told (ok s) (if b then joined else alone) in
        elim (Bool-cases s.cluster.enabled) [
          | inl on ↦
              subst told (sym on) (joined_by-Told s (create (memberlist_config s.cluster)) on refl)
          | inr off ↦ subst told (sym off) (refl, refl, sym off, sym off)
        ]

    -- On a host that has a name, what `setup` comes to is always one of these: the error of
    -- `parseConfig`; the error of memberlist for settings that enable clustering; or a server with the
    -- settings that `parseConfig` returns, whose watcher is started, which joins the cluster and has a
    -- manager exactly if clustering is enabled. It is never an error of NewClusterManager nor a use of a
    -- nil manager.
    pub setup-Told :
        (name : Bytes) (props : List Property)
        → name ≢ []
        → Told
            (parse_config env (named name) props)
            (setup wire q now inspect env (named name) create props)
    setup-Told name props ne =
        subst (λ o. Told (parse_config env (named name) props) o)
          (sym (setup-outcome_of name props ne))
          (Told-outcome_of (parse_config env (named name) props))

    -- The watcher of a server is one that was made and started.
    abbrev IsFresh : Outcome Queue → Type 0
    IsFresh (serving v) =
        (w : Watcher (Option (Cluster Queue))) × (v.plugin.session
          ≡ (start (new_session w inspect)).0)
    IsFresh other = Unit

    joined_by-IsFresh : (s : Settings) (a : Answer ℕ) → IsFresh (joined_by s a)
    unfolding start_watcher start new_plugin new_session
    joined_by-IsFresh s (fails x) = tt
    joined_by-IsFresh s (gives n) = ((clustered s n).session.watcher, refl)

    outcome_of-IsFresh : (r : Result Settings) → IsFresh (outcome_of r)
    unfolding start_watcher start new_plugin new_session
    outcome_of-IsFresh (err e) = tt
    outcome_of-IsFresh (ok s) =
        let joined = joined_by s (create (memberlist_config s.cluster)) in
        let alone = new_plugin wire q now inspect s in
        let fresh = λ (b : Bool). IsFresh (if b then joined else start_watcher env false alone) in
        elim (Bool-cases s.cluster.enabled) [
          | inl on ↦
              subst fresh (sym on) (joined_by-IsFresh s (create (memberlist_config s.cluster)))
          | inr off ↦ subst fresh (sym off) (alone.session.watcher, refl)
        ]

    pub setup-IsFresh :
        (name : Bytes) (props : List Property) (v : Serving Queue)
        → name ≢ []
        → setup wire q now inspect env (named name) create props ≡ serving v
        → (w : Watcher (Option (Cluster Queue))) × (v.plugin.session
            ≡ (start (new_session w inspect)).0)
    setup-IsFresh name props v ne e =
        subst IsFresh (sym (setup-outcome_of name props ne) ∙ e)
          (outcome_of-IsFresh (parse_config env (named name) props))
