-- ===== src/Cluster/Plugin/Published.antt =====
-- From the configuration to what a peer answers: the first container of a node in a cluster.
use joyride.Common.{
  ℕ, ℤ, ◌≤◌, Bytes, to_lower, true, false, Option, none, some, List, [], ◌∷◌, length, map, ◌≡◌, ◌≢◌,
  refl, sym, ◌∙◌, ap, subst, Bool, Bool-cases, inl, inr, if◌then◌else◌,
}
use joyride.Common.Map.{get}
use joyride.Cluster.Message.{RecordMessage}
use joyride.Cluster.Records.{Records, new_records, lookup, is_stale}
use joyride.Cluster.Delegate.{
  Wire, BroadcastQueue, Delegate, running, msg_chan_buffer_size, new_cluster_delegate,
}
use joyride.Cluster.Delegate as Delegate
use joyride.Cluster.Delegate.Inbox.{notify_all, process_rounds}
use joyride.Cluster.Config.{named}
use joyride.Cluster.Manager.{Manager}
use joyride.Cluster.Manager.Cycle.{
  Cluster, Answer, fails, gives, MemberlistConfig, memberlist_config, new_cluster, started_with,
}
use joyride.Cluster.Watcher.{
  Change, Watcher, InspectResponse, call_each, notify, hostnames_or_nil, without, add_hostnames,
  remove_hostnames, removal, addition, update_container, new_docker_watcher, set_callback,
}
use joyride.Cluster.Watcher.Update.{named_by}
use joyride.Cluster.Watcher.Cycle.{start, new_session}
use joyride.Cluster.Wiring.{cluster_callback}
use joyride.Cluster.Wiring.Queued.{queue_all, announcements, AllSend}
use joyride.Cluster.Wiring.Published.{update_container-published}
use joyride.Cluster.Setup.{Property, Settings, Result, ok, err}
use joyride.Cluster.Setup.Settle.{Env, parse_config}
use joyride.Cluster.Plugin.{
  Outcome, Serving, serving, start_watcher, plugin_callback, new_plugin, setup,
}
use joyride.Cluster.Plugin.Serves.{manager_for, clustered, joined_by, outcome_of, setup-outcome_of}

-- The queue of the delegate, if there is one.
abbrev pub queued : {Queue : Type 0} → Option (Cluster Queue) → Option Queue
queued none = none
queued (some cm) = elim cm.manager.delegate [ none ↦ none | some d ↦ some d.broadcasts ]

module _ {Queue : Type 0} (wire : Wire) (q : BroadcastQueue Queue) where
  -- A watcher of the manager, with the callback that calls it.
  abbrev calling : Watcher (Manager Queue) → Watcher (Manager Queue)
  calling w = record w { callback = some (cluster_callback wire q) }

  -- The same watcher in the plugin.
  abbrev in_plugin : Cluster Queue → Watcher (Manager Queue) → Watcher (Option (Cluster Queue))
  in_plugin cm w = record {
    host_ip = w.host_ip;
    labels = w.labels;
    records = w.records;
    world = some (record cm { manager = w.world });
    callback = some (plugin_callback wire q);
    containers = w.containers;
    now = w.now;
    ticks = w.ticks;
  }

  abbrev lift : Cluster Queue → Records × Manager Queue → Records × Option (Cluster Queue)
  lift cm (r, m) = (r, some (record cm { manager = m }))

  call_each-lift :
      (cm : Cluster Queue) (change : Bytes → Change) (hs : List Bytes) (r : Records)
      (m : Manager Queue)
      → call_each (plugin_callback wire q) change hs (r, some (record cm { manager = m }))
        ≡ lift cm (call_each (cluster_callback wire q) change hs (r, m))
  unfolding call_each plugin_callback
  call_each-lift cm change [] r m = refl
  call_each-lift cm change (h ∷ hs) r m =
      let (r', m') = cluster_callback wire q (change h) (r, m) in call_each-lift cm change hs r' m'

  update_container-in_plugin :
      (cm : Cluster Queue) (w : Watcher (Manager Queue)) (id : Bytes) (hs : List Bytes)
      → ((update_container (in_plugin cm w) id hs).records
          ≡ (update_container (calling w) id hs).records)
        × ((update_container (in_plugin cm w) id hs).world
            ≡ some (record cm { manager = (update_container (calling w) id hs).world }))
  unfolding update_container notify
  update_container-in_plugin cm w id hs =
      let old = hostnames_or_nil (get w.containers id) in
      let removed = without old hs in
      let added = without hs old in
      let local = add_hostnames (remove_hostnames w.records removed) w.host_ip added in
      let gone = removal (w.now w.ticks) in
      let come = addition w.host_ip (w.now w.ticks) in
      let between = call_each (cluster_callback wire q) gone removed (local, w.world) in
      let both =
        ap (call_each (plugin_callback wire q) come added)
          (call_each-lift cm gone removed local w.world)
        ∙ call_each-lift cm come added between.0 between.1 in
      (ap (λ s. s.0) both, ap (λ s. s.1) both)

  module _ (now : ℕ → ℤ) (inspect : ℕ → Bytes → Option InspectResponse) (env : Env)
      (create : MemberlistConfig → Answer ℕ) where
    -- In a cluster, the watcher of a server is that of a plugin with some number of members.
    abbrev HasManager : Outcome Queue → Type 0
    HasManager (serving v) =
        v.plugin.settings.cluster.enabled ≡ true
        → (n : ℕ) × (v.plugin.session.watcher
            ≡ (clustered wire q now inspect env create v.plugin.settings n).session.watcher)
    HasManager other = Unit

    joined_by-HasManager :
        (s : Settings) (a : Answer ℕ) → HasManager (joined_by wire q now inspect env create s a)
    unfolding start_watcher start new_plugin new_session
    joined_by-HasManager s (fails x) = tt
    joined_by-HasManager s (gives n) = λ on. (n, refl)

    outcome_of-HasManager :
        (r : Result Settings) → HasManager (outcome_of wire q now inspect env create r)
    unfolding start_watcher start new_plugin
    outcome_of-HasManager (err e) = tt
    outcome_of-HasManager (ok s) =
        let joined =
          joined_by wire q now inspect env create s (create (memberlist_config s.cluster)) in
        let alone = start_watcher env false (new_plugin wire q now inspect s) in
        let has = λ (b : Bool). HasManager (if b then joined else alone) in
        elim (Bool-cases s.cluster.enabled) [
          | inl on ↦
              subst has (sym on) (joined_by-HasManager s (create (memberlist_config s.cluster)))
          | inr off ↦ subst has (sym off) (λ on. cc)
        ]

    setup-HasManager :
        (name : Bytes) (props : List Property) (v : Serving Queue)
        → name ≢ []
        → setup wire q now inspect env (named name) create props ≡ serving v
        → v.plugin.settings.cluster.enabled ≡ true
        → (n : ℕ) × (v.plugin.session.watcher
            ≡ (clustered wire q now inspect env create v.plugin.settings n).session.watcher)
    setup-HasManager name props v ne e =
        subst HasManager (sym (setup-outcome_of wire q now inspect env create name props ne) ∙ e)
          (outcome_of-HasManager (parse_config env (named name) props))

    -- The manager of a plugin with `n` members.
    abbrev cluster_for : Settings → ℕ → Cluster Queue
    cluster_for s n =
        started_with (new_cluster (manager_for wire q s new_records)) n
          (new_cluster_delegate q s.cluster.node_name new_records)

    -- Its watcher, with the manager alone.
    abbrev watcher_for : Settings → ℕ → Watcher (Manager Queue)
    watcher_for s n =
        record (new_docker_watcher s.host_ip s.labels new_records (cluster_for s n).manager now) {
          callback = none;
        }

    -- In a cluster, on a host that has a name: when a server gets its first container, with at least
    -- one hostname, each of the hostnames resolves to the configured address of the host there, and
    -- the queue of the node, which was empty, has exactly one announcement of each, in order. A peer
    -- that runs with an empty channel and gets these packets has, after as many rounds of its loop,
    -- the same answer, for each hostname of which it has heard nothing newer; at most 256 hostnames
    -- and a codec that carries the announcements provided.
    pub setup-published :
        (enc : RecordMessage → Bytes) (name : Bytes) (props : List Property) (v : Serving Queue)
        (peer : Delegate Queue) (id h : Bytes) (hs : List Bytes) (j : Bytes)
        → name ≢ []
        → setup wire q now inspect env (named name) create props ≡ serving v
        → v.plugin.settings.cluster.enabled ≡ true
        → AllSend wire enc (
            announcements v.plugin.settings.cluster.node_name v.plugin.settings.host_ip
              (now 0)
              (h ∷ hs))
        → length (
            announcements v.plugin.settings.cluster.node_name v.plugin.settings.host_ip
              (now 0)
              (h ∷ hs))
          ≤ msg_chan_buffer_size
        → peer.loop ≡ running
        → peer.msg_chan ≡ []
        → named_by (h ∷ hs) j ≡ true
        → is_stale
            (get peer.records.meta_map (to_lower j))
            (now 0)
            v.plugin.settings.cluster.node_name
          ≡ false
        → let ip = v.plugin.settings.host_ip in
          let msgs = announcements v.plugin.settings.cluster.node_name ip (now 0) (h ∷ hs) in
          (lookup (update_container v.plugin.session.watcher id (h ∷ hs)).records j ≡ some ip)
          × (queued (update_container v.plugin.session.watcher id (h ∷ hs)).world
              ≡ some (queue_all q q.empty (map enc msgs)))
          × (lookup (process_rounds (length msgs) (notify_all wire peer (map enc msgs))).records j
              ≡ some ip)
    unfolding new_plugin new_session new_docker_watcher set_callback started_with new_cluster get
        Delegate.start new_cluster_delegate
    setup-published enc name props v peer id h hs j ne e on sends few l empty is_named fresh =
        let s = v.plugin.settings in
        let (n, at) = setup-HasManager name props v ne e on in
        let w = watcher_for s n in
        let cm = cluster_for s n in
        let d = Delegate.start (new_cluster_delegate q s.cluster.node_name new_records) in
        let (here, world, there) =
          update_container-published wire q enc (calling w) cm.manager d peer id h hs j refl refl
            refl sends few l empty is_named fresh in
        let (records, reached) = update_container-in_plugin cm w id (h ∷ hs) in
        (
          ap (λ x. lookup (update_container x id (h ∷ hs)).records j) at
              ∙ ap (λ r. lookup r j) records
              ∙ here,
          ap (λ x. queued (update_container x id (h ∷ hs)).world) at
              ∙ ap queued reached
              ∙ ap (λ m. queued (some (record cm { manager = m }))) world,
          there,
        )
