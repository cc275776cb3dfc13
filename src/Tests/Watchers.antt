-- ===== src/Tests/Watchers.antt =====
-- The life of the Docker watcher and of the watcher of files.
use joyride.Common.{
  ℕ, pos, Bytes, codes, same, contains, Bool, true, false, Option, none, some, List, [], ◌∷◌, ◌≡◌,
  refl, arith,
}
use joyride.Common.Map.{Map, get}
use joyride.Cluster.Records.{new_records}
use joyride.Cluster.Watcher.{Watcher, Summary, InspectResponse}
use joyride.Cluster.Watcher.Backoff.{second, next_backoff}
use joyride.Cluster.Watcher.Events.{Message, Selected, cancelled, errored, received}
use joyride.Cluster.Watcher.Cycle as Docker
use joyride.Cluster.Watcher.Cycle.{Round, no_client, no_ping, pinged, new_session, round}
use joyride.Cluster.Watcher.Cycle.Connections.{IsOrderly, below}
use joyride.Cluster.Watcher.Cycle.Tidy.{stop-watch_loop}
use joyride.Cluster.Watcher.Cycle.Sleeps.{one_second, failing}
use joyride.Cluster.Watcher.Cycle.Follow.{follow, last_listed}
use joyride.Cluster.Watcher.Cycle.Tracking.{round-follow}
use joyride.Traefik.Parser.{is_middleware_only}
use joyride.Traefik.Records as Traefik
use joyride.Traefik.FileWatcher.{FileWatcher, new_file_watcher, ext, base, load_all_configs}
use joyride.Traefik.FileWatcher.Debounce.{counts}
use joyride.Traefik.FileWatcher.Cycle as Files
use joyride.Traefik.FileWatcher.Cycle.Late.{stop_late}

abbrev any_name : Bytes → Bool
any_name name = true

abbrev labels : Map Bytes
labels = (codes "joyride.host.name", codes "app.local") ∷ []

abbrev watcher : Watcher (Unit {0})
watcher = record {
  host_ip = codes "10.0.0.1";
  labels = codes "joyride.host.name" ∷ [];
  records = new_records;
  world = tt;
  callback = none;
  containers = [];
  now = λ n. pos n;
  ticks = 0;
}

abbrev inspect : ℕ → Bytes → Option InspectResponse
inspect n id = some (record { config = some labels })

abbrev listed : List Summary
listed = record { id = codes "1"; summary_labels = labels } ∷ []

abbrev start_2 : Message
start_2 = record { action = codes "start"; actor_id = codes "2" }

abbrev die_1 : Message
die_1 = record { action = codes "die"; actor_id = codes "1" }

abbrev stream : List Selected
stream = received true start_2 ∷ received true die_1 ∷ errored true none ∷ []

-- No answer to the ping; then a stream that breaks; then one that the end of the context ends.
abbrev rounds : List Round
rounds =
    record { done = false; attempt = no_ping; listed = none; selected = []; cut = none }
    ∷ record { done = false; attempt = pinged; listed = some listed; selected = stream; cut = none }
    ∷ record {
      done = false;
      attempt = pinged;
      listed = some [];
      selected = cancelled ∷ [];
      cut = none;
    }
    ∷ record { done = true; attempt = no_client; listed = none; selected = []; cut = none }
    ∷ []

rounds-IsOrderly : IsOrderly rounds
rounds-IsOrderly = (refl, (refl, (refl, (refl, tt))))

abbrev session : Docker.Session (Unit {0})
session =
    (Docker.watch_loop any_name (Docker.start (new_session watcher inspect)).0 second rounds).0

stop-watch_loop_example :
    ((Docker.stop session).client ≡ none)
    × ((Docker.stop session).closed ≡ below (Docker.stop session).opened)
stop-watch_loop_example = stop-watch_loop any_name watcher inspect rounds rounds-IsOrderly

-- The context is done in the second sleep.
abbrev interrupted : List Round
interrupted =
    failing false
    ∷ record { done = false; attempt = no_ping; listed = none; selected = []; cut = some 5 }
    ∷ failing true
    ∷ []

interrupted-sleeps :
    (Docker.watch_loop any_name (new_session watcher inspect) second interrupted).1.sleeps
    ≡ one_second ∷ 5 ∷ []
unfolding Docker.watch_loop Docker.continue_by Docker.after_sleep Docker.sleep round
    Docker.after_connect Docker.connect next_backoff
interrupted-sleeps = refl

round-follow_example :
    get
      (round any_name (new_session watcher inspect) second (record {
        done = false;
        attempt = pinged;
        listed = some listed;
        selected = stream;
        cut = some 7;
      })).0.watcher.containers
      (codes "2")
    ≡ follow any_name watcher.labels inspect 0 stream
        (codes "2")
        (last_listed any_name watcher.labels listed (codes "2") none)
unfolding new_session
round-follow_example =
    round-follow any_name (new_session watcher inspect) second listed stream (some 7) (codes "2")

abbrev file_watcher : FileWatcher
file_watcher = new_file_watcher (codes "10.0.0.1") [] Traefik.new_records

abbrev watching : Files.Session
watching = record {
  watcher = file_watcher;
  running = true;
  watching = true;
  cancelled = false;
  looping = true;
}

abbrev saved : Bytes
saved = codes "/d/app.yml"

saved-counts : counts saved ≡ true
unfolding ext base same contains is_middleware_only
saved-counts = refl

stop_late_example :
    (Files.tick (Files.stop watching) 600 (some []) ≡ Files.stop watching)
    × ((Files.tick
          (Files.stop_loop
            (Files.select (Files.stop_timer watching) (Files.event true 100 saved)).0)
          600
          (some [])).watcher
        ≡ load_all_configs (record file_watcher { deadline = none }) (some []))
    × ((Files.stop_loop
          (Files.select (Files.stop_timer watching) (Files.event true 100 saved)).0).looping
        ≡ false)
stop_late_example = stop_late watching 100 600 saved (some []) refl saved-counts (omega arith)
