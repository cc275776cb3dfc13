-- ===== src/Tests/Saved.antt =====
-- A configuration file that is saved, and what a client is told then.
use joyride.Common.{
  Bytes, codes, same, contains, Bool, true, false, ◌&&◌, Option, none, some, List, [], ◌∷◌, ◌==◌,
  ◌≡◌, refl, arith, if◌then◌else◌,
}
use joyride.Dns.{Request, Reply, query_name, parse_ipv4, type_a}
use joyride.Cluster.Serve.Answers.{one_record}
use joyride.Traefik.Records.{new_records}
use joyride.Traefik.Parser.{is_middleware_only}
use joyride.Traefik.FileWatcher.{
  FileWatcher, DirEntry, new_file_watcher, ext, base, handle_event, fire,
}
use joyride.Traefik.FileWatcher.Load.{configured}
use joyride.Traefik.FileWatcher.Debounce.{Event, watch, counts, IsBurst}
use joyride.Traefik.Saved.{told, told-saved}

abbrev parse_ip : Bytes → Option Bytes
parse_ip s = if same s (codes "10.0.0.1") then some (10 ∷ 0 ∷ 0 ∷ 1 ∷ []) else none

abbrev writer : Reply → Option Bytes
writer m = none

abbrev through : Bytes → Bool
through name = false

abbrev watcher : FileWatcher
watcher = new_file_watcher (codes "10.0.0.1") [] new_records

abbrev entries : List DirEntry
entries =
    record {
      name = codes "app.yml";
      is_dir = false;
      is_regular = some true;
      content = some (codes "Host(`App.local`)");
    }
    ∷ []

abbrev question : Request
question = record { name = codes "app.local."; qname = codes "App.Local."; qtype = type_a }

abbrev saved : Bytes
saved = codes "/d/app.yml"

saved-counts : counts saved ≡ true
unfolding ext base same contains is_middleware_only
saved-counts = refl

abbrev burst : List Event
burst = record { time = 300; name = saved; listing = none } ∷ []

burst-IsBurst : IsBurst 0 burst
burst-IsBurst = (saved-counts, omega arith, tt)

told-saved_example :
    (told writer parse_ip 60 through
        (fire (watch (handle_event watcher 0 saved) burst) 799 (some entries))
        question
      ≡ told writer parse_ip 60 through watcher question)
    × (told writer parse_ip 60 through
          (fire (watch (handle_event watcher 0 saved) burst) 800 (some entries))
          question
        ≡ (if question.qtype == type_a && configured watcher.env entries (query_name question)
            then one_record question 60 (parse_ipv4 parse_ip watcher.host_ip)
            else []))
told-saved_example =
    told-saved writer parse_ip 60 through watcher 0 799 800 saved burst entries question
      saved-counts burst-IsBurst (omega arith) (omega arith)
