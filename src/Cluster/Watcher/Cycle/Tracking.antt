-- ===== src/Cluster/Watcher/Cycle/Tracking.antt =====
-- What the watcher knows of the containers: what Docker listed, changed by the events since then.
use joyride.Common.{
  ℕ, suc, Bytes, Bool, true, false, Option, none, some, List, [], ◌∷◌, ◌≡◌, refl, ap, ◌∙◌, arith,
  if◌then◌else◌,
}
use joyride.Common.Map.{get}
use joyride.Cluster.Watcher.{
  Watcher, Summary, apply_container_summary, apply_summaries, drop_unseen, sync_containers,
}
use joyride.Cluster.Watcher.Sync.{
  listed, notify_removed_fields, apply_summaries_lem, drop_unseen_lem,
}
use joyride.Cluster.Watcher.Events.{Selected, Outcome, finished, eof, failed, consume_events}
use joyride.Cluster.Watcher.Cycle.{
  Session, pinged, close_client, connect, on_event, watch_events, after_events, after_sync,
  after_connect, round,
}
use joyride.Cluster.Watcher.Cycle.Follow.{
  last_listed, follow, last_listed-listed, Known, summary-Known,
}
use joyride.Cluster.Watcher.Cycle.Streams.{consume_events-follow}

module _ {World : Type 0} (is_domain_name : Bytes → Bool) where
  -- The list, from what was known.
  apply_summaries-last_listed :
      (w : Watcher World) (cs : List Summary) (id : Bytes)
      → Known w
          (apply_summaries is_domain_name w cs).0
          id
          (last_listed is_domain_name w.labels cs id (get w.containers id))
  unfolding apply_summaries
  apply_summaries-last_listed w [] id = record { entry = refl; labels = refl }
  apply_summaries-last_listed w (c ∷ cs) id =
      let t = (apply_container_summary is_domain_name w c).0 in
      let head = summary-Known is_domain_name w c id in
      let rest = apply_summaries-last_listed t cs id in
      record {
        entry =
            rest.entry
            ∙ ap (λ names. last_listed is_domain_name names cs id (get t.containers id)) head.labels
            ∙ ap (last_listed is_domain_name w.labels cs id) head.entry;
        labels = rest.labels ∙ head.labels;
      }

  -- After a synchronisation.
  sync_containers-Known :
      (w : Watcher World) (items : List Summary) (id : Bytes)
      → Known w
          (sync_containers is_domain_name true (some items) w).0
          id
          (last_listed is_domain_name w.labels items id none)
  unfolding sync_containers
  sync_containers-Known w items id =
      let applied = apply_summaries is_domain_name w items in
      let dropped = drop_unseen applied.1 applied.0.containers applied.0.records in
      let k = apply_summaries-last_listed w items id in
      let t = record applied.0 { containers = dropped.0; records = dropped.1 } in
      let (containers, labels) = notify_removed_fields t dropped.2 in
      record {
        entry =
            ap (λ m. get m id) containers
            ∙ (drop_unseen_lem applied.1 applied.0.containers applied.0.records).0 id
            ∙ ap (λ b. if b then get applied.0.containers id else none)
                (apply_summaries_lem is_domain_name w items id).0
            ∙ ap (λ x. if listed is_domain_name w.labels items id then x else none) k.entry
            ∙ last_listed-listed is_domain_name w.labels items id (get w.containers id);
        labels = labels ∙ k.labels;
      }

  after_events-watcher :
      (s : Session World) (out : Option Outcome)
      → (after_events is_domain_name (s, out)).0.watcher ≡ s.watcher
  unfolding after_events close_client
  after_events-watcher s none = refl
  after_events-watcher s (some finished) = refl
  after_events-watcher s (some eof) = ground arith
  after_events-watcher s (some (failed e)) = ground arith

  after_sync-watcher :
      (s : Session World) (c : ℕ) (w : Watcher World) (sel : List Selected)
      → s.client ≡ some c
      → (after_sync is_domain_name s (w, true) sel).0.watcher
        ≡ (consume_events (on_event is_domain_name) (record s { watcher = w }) sel).0.watcher
  unfolding after_sync watch_events
  after_sync-watcher s c w sel e =
      let t : Session World = record s { watcher = w } in
      let out = consume_events (on_event is_domain_name) t sel in
      ap
        (λ (client : Option ℕ).
          (after_events {World = World} is_domain_name
            (elim client [ none ↦ (t, some finished) | some i ↦ out ])).0.watcher)
        e
      ∙ after_events-watcher out.0 out.1

  -- In a round that connects and gets a list, the watcher comes to know of each container what the
  -- list says of it, whatever it knew before, and then what the events say, up to the end of the
  -- stream: a start gives it the hostnames of its labels as Docker then has them, if there are any,
  -- and a stop or a death takes them away. That is so whatever the callback does.
  pub round-follow :
      (s : Session World) (backoff : ℕ) (items : List Summary) (sel : List Selected)
      (cut : Option ℕ) (id : Bytes)
      → get
          (round is_domain_name s backoff (record {
            done = false;
            attempt = pinged;
            listed = some items;
            selected = sel;
            cut = cut;
          })).0.watcher.containers
          id
        ≡ follow is_domain_name s.watcher.labels s.inspect s.events sel id
            (last_listed is_domain_name s.watcher.labels items id none)
  unfolding round after_connect connect sync_containers
  round-follow s backoff items sel cut id =
      let t : Session World = record s { opened = suc s.opened; client = some s.opened } in
      let w = (sync_containers is_domain_name true (some items) s.watcher).0 in
      let k = sync_containers-Known s.watcher items id in
      ap (λ x. get x.containers id) (after_sync-watcher t s.opened w sel refl)
      ∙ consume_events-follow is_domain_name (record t { watcher = w }) s.opened sel id refl
      ∙ ap (λ names. follow is_domain_name names s.inspect s.events sel id (get w.containers id))
          k.labels
      ∙ ap (follow is_domain_name s.watcher.labels s.inspect s.events sel id) k.entry
