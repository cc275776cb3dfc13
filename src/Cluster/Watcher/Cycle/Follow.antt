-- ===== src/Cluster/Watcher/Cycle/Follow.antt =====
-- What a list of containers and a stream of events say of a container.
use joyride.Common.{
  ℕ, suc, Bytes, codes, same, Bool, true, false, not, ◌&&◌, ◌||◌, Option, none, some, List, [], ◌∷◌,
  length, ◌==◌, ◌≡◌, refl, ap, ◌∙◌, arith, if◌then◌else◌,
}
use joyride.Common.Map.{get}
use joyride.Common.Map.Laws.{get-put}
use joyride.Cluster.Hostnames.{extract_hostnames}
use joyride.Cluster.Watcher.{
  Watcher, Summary, InspectResponse, update_container, apply_container_summary,
}
use joyride.Cluster.Watcher.Sync.{listed, update_container_fields}
use joyride.Cluster.Watcher.Events.{Message, Selected, cancelled, errored, received}

-- Hostnames, if there are any, or what was known.
abbrev pub or_known : List Bytes → Option (List Bytes) → Option (List Bytes)
or_known [] known = known
or_known (h ∷ hs) known = some (h ∷ hs)

module _ (is_domain_name : Bytes → Bool) (names : List Bytes) where
  -- What the list says of the container, or what was known: the last entry that has hostnames.
  abbrev pub last_listed : List Summary → Bytes → Option (List Bytes) → Option (List Bytes)
  last_listed [] id known = known
  last_listed (c ∷ cs) id known = last_listed cs id (
      if same c.id id
      then or_known (extract_hostnames is_domain_name names c.summary_labels) known
      else known)

  -- What a start says of the container, by Docker's answer.
  abbrev pub started : Option InspectResponse → Option (List Bytes) → Option (List Bytes)
  started none known = known
  started (some info) known = elim info.config [
    | none ↦ known
    | some labels ↦ or_known (extract_hostnames is_domain_name names labels) known
  ]

  -- One event, with Docker's answer to an inspection.
  abbrev pub follow_event :
      (Bytes → Option InspectResponse) → Message → Bytes → Option (List Bytes) → Option (List Bytes)
  follow_event inspect e id known =
      if not (same e.actor_id id)
      then known
      else if same e.action (codes "start")
      then started (inspect e.actor_id) known
      else if same e.action (codes "stop") || same e.action (codes "die")
      then none
      else known

  -- The events up to the first other selection, the first of them the n-th of all.
  abbrev pub follow :
      (ℕ → Bytes → Option InspectResponse)
      → ℕ
      → List Selected
      → Bytes
      → Option (List Bytes)
      → Option (List Bytes)
  follow inspect n [] id known = known
  follow inspect n (cancelled ∷ rest) id known = known
  follow inspect n (errored ok err ∷ rest) id known = known
  follow inspect n (received false e ∷ rest) id known = known
  follow inspect n (received true e ∷ rest) id known =
      follow inspect (suc n) rest id (follow_event (inspect n) e id known)

-- What the list says does not depend on what was known.
pub last_listed-listed :
    (is_domain_name : Bytes → Bool) (names : List Bytes) (cs : List Summary) (id : Bytes)
    (known : Option (List Bytes))
    → (if listed is_domain_name names cs id
        then last_listed is_domain_name names cs id known
        else none)
      ≡ last_listed is_domain_name names cs id none
unfolding listed
last_listed-listed is_domain_name names [] id known = refl
last_listed-listed is_domain_name names (c ∷ cs) id known =
    head (extract_hostnames is_domain_name names c.summary_labels)
      (last_listed-listed is_domain_name names cs id known)
  where
    head :
        (hs : List Bytes)
        → (if listed is_domain_name names cs id
            then last_listed is_domain_name names cs id known
            else none)
          ≡ last_listed is_domain_name names cs id none
        → (if (same c.id id && not (length hs == 0)) || listed is_domain_name names cs id
            then last_listed is_domain_name names cs id
                (if same c.id id then or_known hs known else known)
            else none)
          ≡ last_listed is_domain_name names cs id (if same c.id id then or_known hs none else none)
    head [] ih = ground (arith, ih)
    head (h ∷ hs) ih = ground (arith, ih)

module _ {World : Type 0} where
  -- The table and the labels after a step.
  pub record Known (w t : Watcher World) (id : Bytes) (known : Option (List Bytes)) : Type 0 where
    pub entry : get t.containers id ≡ known
    pub labels : t.labels ≡ w.labels

  pub update_container-Known :
      (w : Watcher World) (c id : Bytes) (hs : List Bytes)
      → Known w (update_container w c hs) id (if same c id then some hs else get w.containers id)
  update_container-Known w c id hs =
      let (containers, labels) = update_container_fields w c hs in
      record {
        entry = ap (λ m. get m id) containers ∙ get-put w.containers c id hs;
        labels = labels;
      }

module _ {World : Type 0} (is_domain_name : Bytes → Bool) where
  pub summary-Known :
      (w : Watcher World) (c : Summary) (id : Bytes)
      → Known w (apply_container_summary is_domain_name w c).0 id (
          if same c.id id
          then or_known
              (extract_hostnames is_domain_name w.labels c.summary_labels)
              (get w.containers id)
          else get w.containers id)
  unfolding apply_container_summary
  summary-Known w c id =
      let hs = extract_hostnames is_domain_name w.labels c.summary_labels in
      let k = update_container-Known w c.id id hs in
      record { entry = ground (arith, k.entry); labels = ground (arith, k.labels) }
