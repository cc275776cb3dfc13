-- ===== src/Cluster/Watcher/Update.antt =====
-- What resolves after the hostnames of a container have changed.
use joyride.Common.{
  Bytes, same, same_iff, to_lower, contains, Bool, not, ◌&&◌, none, some, List, [], ◌∷◌, map,
  if◌then◌else◌, ◌≡◌, refl, ap, ◌∙◌, arith, Option-cases, inl, inr,
}
use joyride.Common.Map.{get, del}
use joyride.Common.Map.Laws.{get-put, get-del}
use joyride.Cluster.Records.{Records, add, remove, lookup}
use joyride.Cluster.Records.Behaviour.{lookup-add-remove}
use joyride.Cluster.Watcher.{
  Watcher, hostnames_or_nil, without, remove_hostnames, add_hostnames, notify, update_container,
  handle_container_stop,
}

-- One of the texts is the other but for the case of its letters.
abbrev pub named_by : List Bytes → Bytes → Bool
named_by hs j = contains (map to_lower hs) (to_lower j)

pub lookup-remove_hostnames :
    (r : Records) (hs : List Bytes) (j : Bytes)
    → lookup (remove_hostnames r hs) j ≡ (if named_by hs j then none else lookup r j)
unfolding remove_hostnames contains
lookup-remove_hostnames r [] j = refl
lookup-remove_hostnames r (h ∷ hs) j =
    ground (arith, lookup-remove_hostnames (remove r h) hs j, (lookup-add-remove r h [] j).1)

pub lookup-add_hostnames :
    (r : Records) (ip : Bytes) (hs : List Bytes) (j : Bytes)
    → lookup (add_hostnames r ip hs) j ≡ (if named_by hs j then some ip else lookup r j)
unfolding add_hostnames contains
lookup-add_hostnames r ip [] j = refl
lookup-add_hostnames r ip (h ∷ hs) j =
    ground (arith, lookup-add_hostnames (add r h ip) ip hs j, (lookup-add-remove r h ip j).0)

pub contains-without :
    (xs ys : List Bytes) (h : Bytes)
    → contains (without xs ys) h ≡ (contains xs h && not (contains ys h))
unfolding without contains
contains-without [] ys h = refl
contains-without (x ∷ xs) ys h = ground (arith, same_iff x h, contains-without xs ys h)

module _ {World : Type 0} where
  -- Without a callback: what `updateContainer` gives a container resolves to the host, what it
  -- takes away does not resolve any more, and all else is as it was. A hostname is taken away if
  -- no new one is spelled like it, and given if no old one was.
  pub update_container-lookup :
      (w : Watcher World) (id : Bytes) (new_hostnames : List Bytes) (j : Bytes)
      → w.callback ≡ none
      → let old_hostnames = hostnames_or_nil (get w.containers id) in
        let w' = update_container w id new_hostnames in
        (lookup w'.records j ≡ (
          if named_by (without new_hostnames old_hostnames) j
          then some w.host_ip
          else if named_by (without old_hostnames new_hostnames) j
          then none
          else lookup w.records j))
        × ((other : Bytes)
            → get w'.containers other
              ≡ (if same id other then some new_hostnames else get w.containers other))
  unfolding update_container notify
  update_container-lookup w id new_hostnames j c =
      let old_hostnames = hostnames_or_nil (get w.containers id) in
      let removed = without old_hostnames new_hostnames in
      let added = without new_hostnames old_hostnames in
      rw c (
        lookup-add_hostnames (remove_hostnames w.records removed) w.host_ip added j
            ∙ ap (λ x. if named_by added j then some w.host_ip else x)
                (lookup-remove_hostnames w.records removed j),
        λ other. get-put w.containers id other new_hostnames,
      )

  handle_container_stop_unknown :
      (w : Watcher World) (id : Bytes) → get w.containers id ≡ none → handle_container_stop w id ≡ w
  unfolding handle_container_stop
  handle_container_stop_unknown w id e = rw (e, handle_container_stop)

  handle_container_stop_known :
      (w : Watcher World) (id : Bytes) (hs : List Bytes)
      → get w.containers id ≡ some hs
      → w.callback ≡ none
      → handle_container_stop w id
        ≡ record w { containers = del w.containers id; records = remove_hostnames w.records hs }
  unfolding handle_container_stop notify
  handle_container_stop_known w id hs e c = ground arith

  -- Without a callback: after a stop of a known container none of its hostnames resolves, whether
  -- another container has it or not, every other hostname resolves as before, and the container
  -- alone is forgotten. A stop of an unknown container changes nothing.
  pub handle_container_stop-lookup :
      (w : Watcher World) (id : Bytes) (j : Bytes)
      → w.callback ≡ none
      → (lookup (handle_container_stop w id).records j ≡ (
          if named_by (hostnames_or_nil (get w.containers id)) j then none else lookup w.records j))
        × ((other : Bytes)
            → get (handle_container_stop w id).containers other
              ≡ (if same id other then none else get w.containers other))
  unfolding contains
  handle_container_stop-lookup w id j c = elim (Option-cases (get w.containers id)) [
    | inl e ↦
        rw (handle_container_stop_unknown w id e, e)
          (refl, λ other. ground (arith, same_iff id other))
    | inr (hs, e) ↦
        rw (handle_container_stop_known w id hs e c, e)
          (lookup-remove_hostnames w.records hs j, λ other. get-del w.containers id other)
  ]
