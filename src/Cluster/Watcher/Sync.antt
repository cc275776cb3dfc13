-- ===== src/Cluster/Watcher/Sync.antt =====
-- What a synchronisation with the list of running containers leaves.
use joyride.Common.{
  Bytes, same, same_iff, contains, Bool, true, false, not, ◌&&◌, ◌||◌, Option, none, some, List, [],
  ◌∷◌, ◌++◌, length, is_some, if◌then◌else◌, ◌==◌, ◌≡◌, refl, sym, ap, ◌∙◌, arith, Bool-cases, inl,
  inr,
}
use joyride.Common.Map.{Map, get, put, has}
use joyride.Common.Map.Laws.{get-put}
use joyride.Cluster.Records.{Records, remove}
use joyride.Cluster.Hostnames.{extract_hostnames}
use joyride.Cluster.Watcher.{
  Watcher, Summary, remove_hostnames, notify, notify_removed, update_container, drop_unseen,
  apply_container_summary, apply_summaries, sync_containers,
}

remove_hostnames-append :
    (r : Records) (xs ys : List Bytes)
    → remove_hostnames r (xs ++ ys) ≡ remove_hostnames (remove_hostnames r xs) ys
unfolding remove_hostnames
remove_hostnames-append r [] ys = refl
remove_hostnames-append r (x ∷ xs) ys = remove_hostnames-append (remove r x) xs ys

-- What is kept, and what the records lose.
pub drop_unseen_lem :
    (seen : List Bytes) (m : Map (List Bytes)) (r : Records)
    → ((id : Bytes)
        → get (drop_unseen seen m r).0 id ≡ (if contains seen id then get m id else none))
      × ((drop_unseen seen m r).1 ≡ remove_hostnames r (drop_unseen seen m r).2)
unfolding drop_unseen get remove_hostnames
drop_unseen_lem seen [] r = (λ id. ground arith, refl)
drop_unseen_lem seen ((i, hs) ∷ m) r = elim (Bool-cases (contains seen i)) [
  | inl e ↦
      let rest = drop_unseen_lem seen m r in
      rw e (λ id. ground (arith, same_iff i id, rest.0 id), rest.1)
  | inr e ↦
      let rest = drop_unseen_lem seen m (remove_hostnames r hs) in
      rw e (
        λ id. ground (arith, same_iff i id, rest.0 id),
        rest.1 ∙ sym (remove_hostnames-append r hs (drop_unseen seen m (remove_hostnames r hs)).2),
      )
]

module _ {World : Type 0} where
  pub notify_fields :
      (w : Watcher World) (removed added : List Bytes)
      → ((notify w removed added).containers ≡ w.containers)
        × ((notify w removed added).labels ≡ w.labels)
  unfolding notify
  notify_fields w removed added = ground arith

  pub update_container_fields :
      (w : Watcher World) (id : Bytes) (hs : List Bytes)
      → ((update_container w id hs).containers ≡ put w.containers id hs)
        × ((update_container w id hs).labels ≡ w.labels)
  unfolding update_container
  update_container_fields w id hs = notify_fields _ _ _

  pub notify_removed_fields :
      (w : Watcher World) (removed : List Bytes)
      → ((notify_removed w removed).containers ≡ w.containers)
        × ((notify_removed w removed).labels ≡ w.labels)
  unfolding notify_removed
  notify_removed_fields w [] = (refl, refl)
  notify_removed_fields w (h ∷ hs) = notify_fields w (h ∷ hs) []

-- The list has a container of that id, with some hostname in its labels.
unfoldable pub listed : (Bytes → Bool) → List Bytes → List Summary → Bytes → Bool
listed is_domain_name names [] id = false
listed is_domain_name names (c ∷ cs) id =
    (same c.id id && not (length (extract_hostnames is_domain_name names c.summary_labels) == 0))
    || listed is_domain_name names cs id

module _ {World : Type 0} (is_domain_name : Bytes → Bool) where
  pub apply_container_summary_lem :
      (w : Watcher World) (c : Summary)
      → ((apply_container_summary is_domain_name w c).0.labels ≡ w.labels)
        × ((apply_container_summary is_domain_name w c).1
            ≡ not (length (extract_hostnames is_domain_name w.labels c.summary_labels) == 0))
        × ((id : Bytes)
            → has (apply_container_summary is_domain_name w c).0.containers id ≡ (
                ((apply_container_summary is_domain_name w c).1 && same c.id id)
                || has w.containers id))
  unfolding apply_container_summary
  apply_container_summary_lem w c =
      let hs = extract_hostnames is_domain_name w.labels c.summary_labels in
      let fields = update_container_fields w c.id hs in
      elim (Bool-cases (length hs == 0)) [
        | inl e ↦ rw e (refl, refl, λ id. refl)
        | inr e ↦
            rw e
              (fields.1, refl, λ id. rw fields.0 (ground (arith, get-put w.containers c.id id hs)))
      ]

  pub apply_summaries_lem :
      (w : Watcher World) (cs : List Summary) (id : Bytes)
      → (contains (apply_summaries is_domain_name w cs).1 id ≡ listed is_domain_name w.labels cs id)
        × (has (apply_summaries is_domain_name w cs).0.containers id
            ≡ (listed is_domain_name w.labels cs id || has w.containers id))
  unfolding apply_summaries listed contains
  apply_summaries_lem w [] id = (refl, refl)
  apply_summaries_lem w (c ∷ cs) id =
      let head = apply_container_summary_lem w c in
      let rest = apply_summaries_lem (apply_container_summary is_domain_name w c).0 cs id in
      let rest_labels = ap (λ names. listed is_domain_name names cs id) head.0 in
      ground (arith, head.1, head.2 id, rest.0, rest.1, rest_labels)

  -- After a synchronisation the watcher knows exactly the running containers that have a hostname
  -- in a watched label, whatever it knew before and whatever the callback does; with no connection
  -- it succeeds, with an error of Docker it fails, and both leave everything as it was.
  sync_containers_known :
      (w : Watcher World) (items : List Summary)
      → ((sync_containers is_domain_name true (some items) w).1 ≡ true)
        × ((id : Bytes)
            → has (sync_containers is_domain_name true (some items) w).0.containers id
              ≡ listed is_domain_name w.labels items id)
        × (sync_containers is_domain_name true none w ≡ (w, false))
        × ((answer : Option (List Summary))
            → sync_containers is_domain_name false answer w ≡ (w, true))
  unfolding sync_containers
  sync_containers_known w items = (refl, known, refl, λ answer. refl)
    where
      known :
          (id : Bytes)
          → has (sync_containers is_domain_name true (some items) w).0.containers id
            ≡ listed is_domain_name w.labels items id
      known id =
          let applied = apply_summaries is_domain_name w items in
          let dropped = drop_unseen applied.1 applied.0.containers applied.0.records in
          let facts = apply_summaries_lem w items id in
          ap (λ m. has m id)
            (notify_removed_fields
              (record applied.0 { containers = dropped.0; records = dropped.1 }) dropped.2).0
          ∙ ap is_some ((drop_unseen_lem applied.1 applied.0.containers applied.0.records).0 id)
          ∙ ground (arith, facts.0, facts.1)
