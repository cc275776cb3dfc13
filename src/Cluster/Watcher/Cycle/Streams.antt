-- ===== src/Cluster/Watcher/Cycle/Streams.antt =====
-- The table of containers after the events of a stream.
use joyride.Common.{
  ℕ, suc, Bytes, same, same_iff, Bool, true, false, Option, none, some, List, [], ◌∷◌, is_some, ◌≡◌,
  refl, ap, ◌∙◌, sym, subst, arith, Option-cases, inl, inr, if◌then◌else◌,
}
use joyride.Common.Map.{get, del}
use joyride.Common.Map.Laws.{get-del}
use joyride.Cluster.Hostnames.{extract_hostnames}
use joyride.Cluster.Watcher.{
  Watcher, InspectResponse, handle_container_stop, handle_container_start, apply_container_inspect,
  handle_event, remove_hostnames,
}
use joyride.Cluster.Watcher.Sync.{notify_fields}
use joyride.Cluster.Watcher.Events.{Message, Selected, cancelled, errored, received, consume_events}
use joyride.Cluster.Watcher.Cycle.{Session, on_event}
use joyride.Cluster.Watcher.Cycle.Follow.{
  started, follow_event, follow, Known, update_container-Known,
}

module _ {World : Type 0} (is_domain_name : Bytes → Bool) where
  inspect-Known :
      (w : Watcher World) (c : Bytes) (info : Option InspectResponse) (id : Bytes)
      → Known w (handle_container_start is_domain_name true info w c) id (
          if same c id
          then started is_domain_name w.labels info (get w.containers id)
          else get w.containers id)
  unfolding handle_container_start apply_container_inspect
  inspect-Known w c none id = record { entry = ground arith; labels = refl }
  inspect-Known w c (some info) id = elim (Option-cases info.config) [
    | inl e ↦ record { entry = ground (arith, e); labels = ground (arith, e) }
    | inr (labels, e) ↦
        let hs = extract_hostnames is_domain_name w.labels labels in
        let k = update_container-Known w c id hs in
        record { entry = ground (arith, e, k.entry); labels = ground (arith, e, k.labels) }
  ]

  stop-Known :
      (w : Watcher World) (c id : Bytes)
      → Known w (handle_container_stop w c) id (if same c id then none else get w.containers id)
  unfolding handle_container_stop
  stop-Known w c id = elim (Option-cases (get w.containers c)) [
    | inl e ↦ record { entry = ground (arith, e, same_iff c id); labels = ground (arith, e) }
    | inr (hs, e) ↦
        let t = record w {
          containers = del w.containers c;
          records = remove_hostnames w.records hs;
        } in
        let (containers, labels) = notify_fields t hs [] in
        record {
          entry = ground (arith, e, ap (λ m. get m id) containers, get-del w.containers c id);
          labels = ground (arith, e, labels);
        }
  ]

  handle_event-Known :
      (w : Watcher World) (inspect : Bytes → Option InspectResponse) (e : Message) (id : Bytes)
      → Known w
          (handle_event is_domain_name true inspect w e.action e.actor_id)
          id
          (follow_event is_domain_name w.labels inspect e id (get w.containers id))
  unfolding handle_event
  handle_event-Known w inspect e id =
      let started = inspect-Known w e.actor_id (inspect e.actor_id) id in
      let stopped = stop-Known w e.actor_id id in
      record {
        entry = ground (arith, started.entry, stopped.entry);
        labels = ground (arith, started.labels, stopped.labels);
      }

  on_event-Known :
      (s : Session World) (c : ℕ) (e : Message) (id : Bytes)
      → s.client ≡ some c
      → Known s.watcher (on_event is_domain_name s e).watcher id (
          follow_event is_domain_name s.watcher.labels
            (s.inspect s.events)
            e
            id
            (get s.watcher.containers id))
  unfolding on_event
  on_event-Known s c e id h =
      subst
        (λ connected.
          Known s.watcher
            (handle_event is_domain_name connected (s.inspect s.events) s.watcher e.action
              e.actor_id)
            id
            (follow_event is_domain_name s.watcher.labels (s.inspect s.events) e id
              (get s.watcher.containers id)))
        (sym (ap is_some h)) (handle_event-Known s.watcher (s.inspect s.events) e id)

  on_event-client :
      (s : Session World) (c : ℕ) (e : Message)
      → s.client ≡ some c
      → (on_event is_domain_name s e).client ≡ some c
  unfolding on_event
  on_event-client s c e h = h

  -- The events of a stream, at a session that is connected.
  pub consume_events-follow :
      (s : Session World) (c : ℕ) (sel : List Selected) (id : Bytes)
      → s.client ≡ some c
      → get (consume_events (on_event is_domain_name) s sel).0.watcher.containers id
        ≡ follow is_domain_name s.watcher.labels s.inspect s.events sel id
            (get s.watcher.containers id)
  unfolding consume_events on_event
  consume_events-follow s c [] id e = refl
  consume_events-follow s c (cancelled ∷ rest) id e = refl
  consume_events-follow s c (errored ok err ∷ rest) id e = refl
  consume_events-follow s c (received false m ∷ rest) id e = refl
  consume_events-follow s c (received true m ∷ rest) id e =
      let k = on_event-Known s c m id e in
      consume_events-follow (on_event is_domain_name s m) c rest id (on_event-client s c m e)
      ∙ ap
          (λ names.
            follow is_domain_name names s.inspect (suc s.events) rest id
              (get (on_event is_domain_name s m).watcher.containers id))
          k.labels
      ∙ ap (follow is_domain_name s.watcher.labels s.inspect (suc s.events) rest id) k.entry
