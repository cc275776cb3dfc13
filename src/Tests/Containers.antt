-- ===== src/Tests/Containers.antt =====
-- plugins/docker-cluster/docker_watcher.go.
use joyride.Common.{
  pos, Bytes, codes, same, contains, split, trim_space, to_lower, Bool, true, false, ◌&&◌, none,
  some, List, [], ◌∷◌, ◌++◌, ◌≡◌, refl, if◌then◌else◌,
}
use joyride.Common.Map.{Map, get, put, del}
use joyride.Cluster.Records.{new_records, add, remove, lookup}
use joyride.Cluster.Hostnames.{
  all_hostname_bytes, is_valid_hostname, take_part, take_parts, take_value, take_labels,
  extract_hostnames,
}
use joyride.Common.Distinct.{IsDistinct}
use joyride.Cluster.Hostnames.Extracted.{offered, extract_hostnames-exact}
use joyride.Cluster.Watcher.{
  Watcher, Summary, update_container, handle_container_stop, without, hostnames_or_nil,
  remove_hostnames, add_hostnames, notify,
}
use joyride.Cluster.Watcher.Update.{named_by, update_container-lookup, handle_container_stop-lookup}
use joyride.Cluster.Watcher.Events.{
  Message, cancelled, errored, received, finished, eof, failed, consume_events, handle_each,
  consume_events_lem,
}

abbrev any_name : Bytes → Bool
any_name name = true

abbrev label : Bytes
label = codes "joyride.host.name"

abbrev labels : Map Bytes
labels = (label, codes " App.local,bad_name, app.local ,App.local,,") ∷ []

extract_labels :
    extract_hostnames any_name (label ∷ []) labels ≡ codes "App.local" ∷ codes "app.local" ∷ []
unfolding extract_hostnames take_labels take_value take_parts take_part is_valid_hostname
    all_hostname_bytes split trim_space get same contains
extract_labels = refl

extract_hostnames-exact_example :
    IsDistinct (extract_hostnames any_name (label ∷ []) labels)
    × ((h : Bytes)
        → contains (extract_hostnames any_name (label ∷ []) labels) h
          ≡ (offered (label ∷ []) labels h && is_valid_hostname any_name h))
extract_hostnames-exact_example = extract_hostnames-exact any_name (label ∷ []) labels

abbrev fresh : Watcher (Unit {0})
fresh = record {
  host_ip = codes "10.0.0.1";
  labels = label ∷ [];
  records = new_records;
  world = tt;
  callback = none;
  containers = [];
  now = pos;
  ticks = 0;
}

abbrev web : List Bytes
web = codes "web.local" ∷ []

-- Two containers with one hostname.
abbrev shared : Watcher (Unit {0})
shared = update_container (update_container fresh (codes "c1") web) (codes "c2") web

-- The hostname is gone with the first of them, though the other is still known to have it.
stop_of_one :
    (lookup (handle_container_stop shared (codes "c1")).records (codes "web.local") ≡ none)
    × (get (handle_container_stop shared (codes "c1")).containers (codes "c2") ≡ some web)
unfolding handle_container_stop update_container notify without remove_hostnames add_hostnames add
    remove lookup new_records get put del same contains to_lower
stop_of_one = (refl, refl)

update_container-lookup_example :
    (lookup (update_container fresh (codes "c1") web).records (codes "WEB.local") ≡ (
      if named_by
        (without web (hostnames_or_nil (get fresh.containers (codes "c1"))))
        (codes "WEB.local")
      then some fresh.host_ip
      else if named_by
          (without (hostnames_or_nil (get fresh.containers (codes "c1"))) web)
          (codes "WEB.local")
      then none
      else lookup fresh.records (codes "WEB.local")))
    × ((other : Bytes)
        → get (update_container fresh (codes "c1") web).containers other
          ≡ (if same (codes "c1") other then some web else get fresh.containers other))
update_container-lookup_example =
    update_container-lookup fresh (codes "c1") web (codes "WEB.local") refl

shared_callback : shared.callback ≡ none
unfolding update_container notify
shared_callback = refl

handle_container_stop-lookup_example :
    (lookup (handle_container_stop shared (codes "c1")).records (codes "web.local") ≡ (
      if named_by (hostnames_or_nil (get shared.containers (codes "c1"))) (codes "web.local")
      then none
      else lookup shared.records (codes "web.local")))
    × ((other : Bytes)
        → get (handle_container_stop shared (codes "c1")).containers other
          ≡ (if same (codes "c1") other then none else get shared.containers other))
handle_container_stop-lookup_example =
    handle_container_stop-lookup shared (codes "c1") (codes "web.local") shared_callback

abbrev running : List Summary
running = record { id = codes "c3"; summary_labels = labels } ∷ []

abbrev started : Message
started = record { action = codes "start"; actor_id = codes "c1" }

abbrev log : List Message → Message → List Message
log seen e = seen ++ (e ∷ [])

consume_events_lem_example :
    (consume_events log [] (received true started ∷ cancelled ∷ [])
      ≡ (handle_each log [] (started ∷ []), some finished))
    × ((ok : Bool)
        → consume_events log [] (received true started ∷ errored ok none ∷ [])
          ≡ (handle_each log [] (started ∷ []), some eof))
    × ((err : Bytes)
        → consume_events log [] (received true started ∷ errored true (some err) ∷ [])
          ≡ (handle_each log [] (started ∷ []), some (failed err)))
    × ((e : Message)
        → consume_events log [] (received true started ∷ received false e ∷ [])
          ≡ (handle_each log [] (started ∷ []), some eof))
    × (consume_events log [] (received true started ∷ [])
        ≡ (handle_each log [] (started ∷ []), none))
consume_events_lem_example = consume_events_lem log [] (started ∷ []) []
