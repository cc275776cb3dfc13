-- ===== src/Cluster/Wiring/Published.antt =====
-- From a container that starts on one node to the answer of another.
use joyride.Common.{
  ◌+◌, ◌≤◌, ℤ, Bytes, contains, to_lower, true, false, none, some, List, [], ◌∷◌, length, map, ◌≡◌,
  refl, sym, ap, ◌∙◌, subst, arith, if◌then◌else◌,
}
use joyride.Common.Map.{get, put}
use joyride.Cluster.Message.{RecordMessage, record_action_add}
use joyride.Cluster.Records.{lookup, is_stale}
use joyride.Cluster.Records.Cell.{Cell, cell, step_at, cell_step}
use joyride.Cluster.Records.Converge.{apply_all, steps_at, cell-apply_all}
use joyride.Cluster.Delegate.{Wire, BroadcastQueue, Delegate, running, msg_chan_buffer_size}
use joyride.Cluster.Delegate.Inbox.{notify_all, process_rounds, process_rounds-notify_all}
use joyride.Cluster.Manager.{Manager}
use joyride.Cluster.Watcher.{
  Watcher, RecordChangeCallback, call_each, addition, notify, update_container, hostnames_or_nil,
  without, add_hostnames, remove_hostnames,
}
use joyride.Cluster.Watcher.Update.{named_by, lookup-add_hostnames}
use joyride.Cluster.Records.Issued.{rejected_self}
use joyride.Cluster.Wiring.{cluster_callback}
use joyride.Cluster.Wiring.Queued.{
  queue_all, announcements, AllSend, decoded-AllSend, managing, call_each-announced,
}

steps_at-done :
    (node ip : Bytes) (ts : ℤ) (hs : List Bytes) (key : Bytes)
    → steps_at key
        (record { address = some ip; stamp = some (record { timestamp = ts; node_id = node }) })
        (announcements node ip ts hs)
      ≡ record { address = some ip; stamp = some (record { timestamp = ts; node_id = node }) }
unfolding steps_at cell_step is_stale
steps_at-done node ip ts [] key = refl
steps_at-done node ip ts (h ∷ hs) key = ground (
  arith,
  rejected_self (record { timestamp = ts; node_id = node }),
  steps_at-done node ip ts hs key,
)

steps_at-announced :
    (node ip : Bytes) (ts : ℤ) (hs : List Bytes) (key : Bytes) (c : Cell)
    → is_stale c.stamp ts node ≡ false
    → contains (map to_lower hs) key ≡ true
    → steps_at key c (announcements node ip ts hs)
      ≡ record { address = some ip; stamp = some (record { timestamp = ts; node_id = node }) }
unfolding steps_at cell_step contains
steps_at-announced node ip ts [] key c fresh named = cc
steps_at-announced node ip ts (h ∷ hs) key c fresh named =
    ground
      (arith, steps_at-done node ip ts hs key, steps_at-announced node ip ts hs key c, fresh, named)

without-nil : (xs : List Bytes) → without xs [] ≡ xs
unfolding without contains
without-nil [] = refl
without-nil (x ∷ xs) = ap (◌∷◌ x) (without-nil xs)

-- Announcements of one address do not change it.
step-address :
    (node ip : Bytes) (ts : ℤ) (h key : Bytes) (c : Cell)
    → c.address ≡ some ip
    → (step_at key c (record {
      hostname = h;
      ip = ip;
      action = record_action_add;
      timestamp = ts;
      node_id = node;
    })).address
      ≡ some ip
unfolding cell_step
step-address node ip ts h key c e = ground (arith, e)

steps_at-address :
    (node ip : Bytes) (ts : ℤ) (hs : List Bytes) (key : Bytes) (c : Cell)
    → c.address ≡ some ip
    → (steps_at key c (announcements node ip ts hs)).address ≡ some ip
unfolding steps_at
steps_at-address node ip ts [] key c e = e
steps_at-address node ip ts (h ∷ hs) key c e =
    steps_at-address node ip ts hs key _ (step-address node ip ts h key c e)

notify-hooked :
    {World : Type 0} (w : Watcher World) (cb : RecordChangeCallback World) (hs : List Bytes)
    → w.callback ≡ some cb
    → notify w [] hs ≡ (
        let s = call_each cb (addition w.host_ip (w.now w.ticks)) hs (w.records, w.world) in
        record w { records = s.0; world = s.1; ticks = w.ticks + 1 })
unfolding notify call_each
notify-hooked w cb hs e = ground (arith, e)

-- A container that was not known: all its hostnames are added.
update_container-new :
    {World : Type 0} (w : Watcher World) (id : Bytes) (hs : List Bytes)
    → get w.containers id ≡ none
    → update_container w id hs
      ≡ notify
          (record w {
            containers = put w.containers id hs;
            records = add_hostnames w.records w.host_ip hs;
          })
          []
          hs
unfolding update_container without remove_hostnames
update_container-new {World} w id hs new =
    let updated = λ (removed added : List Bytes).
      notify
        (record w {
          containers = put w.containers id hs;
          records = add_hostnames (remove_hostnames w.records removed) w.host_ip added;
        })
        removed added in
    ap (λ x. updated (without (hostnames_or_nil x) hs) (without hs (hostnames_or_nil x))) new
    ∙ ap (updated []) (without-nil hs)

module _ {Queue : Type 0} (wire : Wire) (q : BroadcastQueue Queue) where
  update_container-announced :
      (enc : RecordMessage → Bytes) (w : Watcher (Manager Queue)) (cm : Manager Queue)
      (d : Delegate Queue) (id h : Bytes) (hs : List Bytes)
      → get w.containers id ≡ none
      → w.callback ≡ some (cluster_callback wire q)
      → w.world ≡ managing cm d
      → AllSend wire enc (announcements cm.config.node_name w.host_ip (w.now w.ticks) (h ∷ hs))
      → ((update_container w id (h ∷ hs)).records
          ≡ apply_all
              (add_hostnames w.records w.host_ip (h ∷ hs))
              (announcements cm.config.node_name w.host_ip (w.now w.ticks) (h ∷ hs)))
        × ((update_container w id (h ∷ hs)).world
            ≡ managing cm (record d {
              records =
                  apply_all
                    (add_hostnames w.records w.host_ip (h ∷ hs))
                    (announcements cm.config.node_name w.host_ip (w.now w.ticks) (h ∷ hs));
              broadcasts =
                  queue_all q d.broadcasts (
                    map enc (announcements cm.config.node_name w.host_ip (w.now w.ticks) (h ∷ hs)));
            }))
  update_container-announced enc w cm d id h hs new hooked joined sends =
      let local = add_hostnames w.records w.host_ip (h ∷ hs) in
      let t = record w { containers = put w.containers id (h ∷ hs); records = local } in
      let ts = w.now w.ticks in
      let calls = call_each (cluster_callback wire q) (addition w.host_ip ts) (h ∷ hs) in
      let result =
        ap (λ world. calls (local, world)) joined
        ∙ call_each-announced wire q enc cm d local w.host_ip ts h hs sends in
      let updated =
        update_container-new w id (h ∷ hs) new
        ∙ notify-hooked t (cluster_callback wire q) (h ∷ hs) hooked in
      (
        ap (λ x. x.records) updated ∙ ap (λ s. s.0) result,
        ap (λ x. x.world) updated ∙ ap (λ s. s.1) result,
      )

  -- A container that was not known, with at least one hostname, on a node whose watcher calls the
  -- manager: each of its hostnames resolves to the address of the node there, and an announcement of
  -- each is queued, in order, behind what was queued. A peer that runs with an empty channel and gets
  -- these packets has, after as many rounds of its loop, the same answer, for each hostname of which
  -- it has heard nothing newer; at most 256 hostnames and a codec that carries the announcements
  -- provided.
  pub update_container-published :
      (enc : RecordMessage → Bytes) (w : Watcher (Manager Queue)) (cm : Manager Queue)
      (d peer : Delegate Queue) (id h : Bytes) (hs : List Bytes) (j : Bytes)
      → get w.containers id ≡ none
      → w.callback ≡ some (cluster_callback wire q)
      → w.world ≡ managing cm d
      → AllSend wire enc (announcements cm.config.node_name w.host_ip (w.now w.ticks) (h ∷ hs))
      → length (announcements cm.config.node_name w.host_ip (w.now w.ticks) (h ∷ hs))
        ≤ msg_chan_buffer_size
      → peer.loop ≡ running
      → peer.msg_chan ≡ []
      → named_by (h ∷ hs) j ≡ true
      → is_stale (get peer.records.meta_map (to_lower j)) (w.now w.ticks) cm.config.node_name
        ≡ false
      → let msgs = announcements cm.config.node_name w.host_ip (w.now w.ticks) (h ∷ hs) in
        (lookup (update_container w id (h ∷ hs)).records j ≡ some w.host_ip)
        × ((update_container w id (h ∷ hs)).world
            ≡ managing cm (record d {
              records = (update_container w id (h ∷ hs)).records;
              broadcasts = queue_all q d.broadcasts (map enc msgs);
            }))
        × (lookup (process_rounds (length msgs) (notify_all wire peer (map enc msgs))).records j
            ≡ some w.host_ip)
  unfolding lookup
  update_container-published enc w cm d peer id h hs j new hooked joined sends few l e named fresh =
      let node = cm.config.node_name in
      let ip = w.host_ip in
      let ts = w.now w.ticks in
      let msgs = announcements node ip ts (h ∷ hs) in
      let local = add_hostnames w.records ip (h ∷ hs) in
      let key = to_lower j in
      let (records, world) =
        update_container-announced enc w cm d id h hs new hooked joined sends in
      let here =
        lookup-add_hostnames w.records ip (h ∷ hs) j
        ∙ ap (λ b. if b then some ip else lookup w.records j) named in
      let packets = decoded-AllSend wire enc msgs sends in
      let heard =
        ap (λ ms. process_rounds (length ms) (notify_all wire peer (map enc msgs))) (sym packets)
        ∙ process_rounds-notify_all wire peer (map enc msgs) l e
            (subst (λ ms. length ms ≤ msg_chan_buffer_size) (sym packets) few)
        ∙ ap (λ ms. record peer { records = apply_all peer.records ms }) packets in
      (
        ap (λ r. get r.data_map key) records
            ∙ ap (λ c. c.address) (cell-apply_all local msgs key)
            ∙ steps_at-address node ip ts (h ∷ hs) key (cell local key) here,
        world
            ∙ ap
                (λ r.
                  managing cm (record d {
                    records = r;
                    broadcasts = queue_all q d.broadcasts (map enc msgs);
                  }))
                (sym records),
        ap (λ x. get x.records.data_map key) heard
            ∙ ap (λ c. c.address)
                (cell-apply_all peer.records msgs key
                  ∙ steps_at-announced node ip ts (h ∷ hs) key (cell peer.records key) fresh named),
      )
