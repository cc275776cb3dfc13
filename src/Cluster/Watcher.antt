-- ===== src/Cluster/Watcher.antt =====
-- plugins/docker-cluster/docker_watcher.go: containers come and go, and the records follow. What
-- Docker answers is an argument; the callback is a function on the records and on what else it
-- reaches.
pub mod Update
pub mod Sync
pub mod Backoff
pub mod Events
pub mod Cycle
use joyride.Common.{
  ℕ, suc, ◌+◌, ◌*◌, ℤ, Bytes, codes, same, contains, Bool, true, false, not, ◌&&◌, ◌||◌, Option,
  none, some, List, [], ◌∷◌, ◌++◌, length, ltb, ◌==◌, if◌then◌else◌,
}
use joyride.Common.Map.{Map, get, put, del}
use joyride.Cluster.Records.{Records, add, remove}
use joyride.Cluster.Hostnames.{extract_hostnames}

-- The arguments of one call of the callback.
pub record Change : Type 0 where
  pub hostname : Bytes
  pub ip : Bytes
  pub added : Bool
  pub timestamp : ℤ

-- `World` is what a callback may change besides the records, which it shares with the watcher.
abbrev pub RecordChangeCallback : Type 0 → Type 0
RecordChangeCallback World = Change → Records × World → Records × World

pub record Watcher (World : Type 0) : Type 0 where
  pub host_ip : Bytes
  pub labels : List Bytes
  pub records : Records
  pub world : World
  pub callback : Option (RecordChangeCallback World)
  pub containers : Map (List Bytes)
  -- the readings of the clock, and how many have been taken
  pub now : ℕ → ℤ
  pub ticks : ℕ

pub record Summary : Type 0 where
  pub id : Bytes
  pub summary_labels : Map Bytes

-- `none` is a nil `Config`.
pub record InspectResponse : Type 0 where
  pub config : Option (Map Bytes)

abbrev pub hostnames_or_nil : Option (List Bytes) → List Bytes
hostnames_or_nil none = []
hostnames_or_nil (some hs) = hs

-- The texts of the first list that the second does not have.
unfoldable pub without : List Bytes → List Bytes → List Bytes
without [] ys = []
without (x ∷ xs) ys = let rest = without xs ys in if contains ys x then rest else x ∷ rest

unfoldable pub remove_hostnames : Records → List Bytes → Records
remove_hostnames r [] = r
remove_hostnames r (h ∷ hs) = remove_hostnames (remove r h) hs

unfoldable pub add_hostnames : Records → Bytes → List Bytes → Records
add_hostnames r ip [] = r
add_hostnames r ip (h ∷ hs) = add_hostnames (add r h ip) ip hs

-- The loop over `dw.containers`: what was not seen goes, with its hostnames.
unfoldable pub drop_unseen :
    List Bytes → Map (List Bytes) → Records → Map (List Bytes) × Records × List Bytes
drop_unseen seen [] r = ([], r, [])
drop_unseen seen ((id, hostnames) ∷ rest) r =
    if contains seen id
    then (let (kept, s, removed) = drop_unseen seen rest r in ((id, hostnames) ∷ kept, s, removed))
    else (let (kept, s, removed) = drop_unseen seen rest (remove_hostnames r hostnames) in
        (kept, s, hostnames ++ removed))

abbrev pub removal : ℤ → Bytes → Change
removal ts h = record { hostname = h; ip = []; added = false; timestamp = ts }

abbrev pub addition : Bytes → ℤ → Bytes → Change
addition ip ts h = record { hostname = h; ip = ip; added = true; timestamp = ts }

module _ {World : Type 0} where
  unfoldable pub new_docker_watcher : Bytes → List Bytes → Records → World → (ℕ → ℤ) → Watcher World
  new_docker_watcher host_ip labels r world now = record {
    host_ip = host_ip;
    labels = labels;
    records = r;
    world = world;
    callback = none;
    containers = [];
    now = now;
    ticks = 0;
  }

  unfoldable pub set_callback : Watcher World → RecordChangeCallback World → Watcher World
  set_callback w cb = record w { callback = some cb }

  -- The calls of the callback for a list of hostnames.
  unfoldable pub call_each :
      RecordChangeCallback World → (Bytes → Change) → List Bytes → Records × World → Records × World
  call_each cb change [] s = s
  call_each cb change (h ∷ hs) s = call_each cb change hs (cb (change h) s)

  -- `if cb != nil`: one reading of the clock, the removals, then the additions.
  unfoldable pub notify : Watcher World → List Bytes → List Bytes → Watcher World
  notify w removed added = elim w.callback [
    | none ↦ w
    | some cb ↦
        let ts = w.now w.ticks in
        let (r, world) =
          call_each cb (addition w.host_ip ts) added
            (call_each cb (removal ts) removed (w.records, w.world)) in
        record w { records = r; world = world; ticks = w.ticks + 1 }
  ]

  unfoldable pub update_container : Watcher World → Bytes → List Bytes → Watcher World
  update_container w id new_hostnames =
      let old_hostnames = hostnames_or_nil (get w.containers id) in
      let removed = without old_hostnames new_hostnames in
      let added = without new_hostnames old_hostnames in
      notify
        (record w {
          containers = put w.containers id new_hostnames;
          records = add_hostnames (remove_hostnames w.records removed) w.host_ip added;
        })
        removed added

  unfoldable pub handle_container_stop : Watcher World → Bytes → Watcher World
  handle_container_stop w id = elim (get w.containers id) [
    | none ↦ w
    | some hostnames ↦
        notify
          (record w {
            containers = del w.containers id;
            records = remove_hostnames w.records hostnames;
          })
          hostnames []
  ]

  -- `if len(removedHostnames) > 0` before the calls.
  unfoldable pub notify_removed : Watcher World → List Bytes → Watcher World
  notify_removed w [] = w
  notify_removed w (h ∷ hs) = notify w (h ∷ hs) []

module _ {World : Type 0} (is_domain_name : Bytes → Bool) where
  abbrev hostnames_of : Watcher World → Map Bytes → List Bytes
  hostnames_of w labels = extract_hostnames is_domain_name w.labels labels

  unfoldable pub apply_container_summary : Watcher World → Summary → Watcher World × Bool
  apply_container_summary w c =
      let hostnames = hostnames_of w c.summary_labels in
      if length hostnames == 0 then (w, false) else (update_container w c.id hostnames, true)

  unfoldable pub apply_container_inspect :
      Watcher World → Bytes → InspectResponse → Watcher World × List Bytes
  apply_container_inspect w id info = elim info.config [
    | none ↦ (w, [])
    | some labels ↦
        let hostnames = hostnames_of w labels in
        ((if ltb 0 (length hostnames) then update_container w id hostnames else w), hostnames)
  ]

  -- `connected` is `dw.client != nil`, and `info` what Docker answers, `none` for an error.
  unfoldable pub handle_container_start :
      Bool → Option InspectResponse → Watcher World → Bytes → Watcher World
  handle_container_start connected info w id =
      if not connected
      then w
      else elim info [ none ↦ w | some i ↦ (apply_container_inspect w id i).0 ]

  -- `inspect` gives Docker's answer for a container.
  unfoldable pub handle_event :
      Bool → (Bytes → Option InspectResponse) → Watcher World → Bytes → Bytes → Watcher World
  handle_event connected inspect w action id =
      if same action (codes "start")
      then handle_container_start connected (inspect id) w id
      else if same action (codes "stop") || same action (codes "die")
      then handle_container_stop w id
      else w

  -- The loop over the listed containers, with the ids that were seen.
  unfoldable pub apply_summaries : Watcher World → List Summary → Watcher World × List Bytes
  apply_summaries w [] = (w, [])
  apply_summaries w (c ∷ cs) =
      let (w', applied) = apply_container_summary w c in
      let (w'', seen) = apply_summaries w' cs in (w'', if applied then c.id ∷ seen else seen)

  -- The result is false where `syncContainers` returns an error.
  unfoldable pub sync_containers :
      Bool → Option (List Summary) → Watcher World → Watcher World × Bool
  sync_containers connected listed w = if not connected then (w, true) else elim listed [
    | none ↦ (w, false)
    | some items ↦
        let (w', seen) = apply_summaries w items in
        let (kept, r, removed) = drop_unseen seen w'.containers w'.records in
        (notify_removed (record w' { containers = kept; records = r }) removed, true)
  ]
