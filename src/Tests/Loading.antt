-- ===== src/Tests/Loading.antt =====
-- plugins/traefik-externals/file_watcher.go.
use joyride.Common.{
  ◌+◌, Bytes, codes, same, contains, true, false, none, some, List, [], ◌∷◌, ◌≡◌, refl, arith,
}
use joyride.Traefik.Records.{new_records}
use joyride.Traefik.Parser.{is_middleware_only}
use joyride.Traefik.FileWatcher.{
  FileWatcher, DirEntry, new_file_watcher, ext, base, load_all_configs, handle_event, fire,
}
use joyride.Traefik.FileWatcher.Debounce.{Event, watch, counts, IsBurst, watch_loads_once}

abbrev watcher : FileWatcher
watcher = new_file_watcher (codes "10.0.0.1") [] new_records

abbrev config : DirEntry
config = record {
  name = codes "app.yml";
  is_dir = false;
  is_regular = some true;
  content = some (codes "Host(`App.local`)");
}

yaml : ext (codes "/etc/traefik.d/app.yml") ≡ codes ".yml"
unfolding ext same
yaml = refl

abbrev saved : Bytes
saved = codes "/d/app.yml"

saved-counts : counts saved ≡ true
unfolding ext base same contains is_middleware_only
saved-counts = refl

abbrev burst : List Event
burst = record { time = 300; name = saved; listing = none } ∷ []

burst-IsBurst : IsBurst 0 burst
burst-IsBurst = (saved-counts, omega arith, tt)

watch_loads_once_example :
    (watch (handle_event watcher 0 saved) burst ≡ record watcher { deadline = some (300 + 500) })
    × (fire (watch (handle_event watcher 0 saved) burst) 799 (some (config ∷ []))
        ≡ watch (handle_event watcher 0 saved) burst)
    × (fire (watch (handle_event watcher 0 saved) burst) 800 (some (config ∷ []))
        ≡ load_all_configs (record watcher { deadline = none }) (some (config ∷ [])))
    × (fire (load_all_configs (record watcher { deadline = none }) (some (config ∷ []))) 900 none
        ≡ load_all_configs (record watcher { deadline = none }) (some (config ∷ [])))
watch_loads_once_example =
    watch_loads_once watcher 0 799 800 900 saved burst (some (config ∷ [])) none saved-counts
      burst-IsBurst (omega arith) (omega arith)
