-- ===== src/Traefik/FileWatcher.antt =====
-- plugins/traefik-externals/file_watcher.go: the load of all files and the timer that delays it.
-- The file system answers a load with a listing.
pub mod Load
pub mod Debounce
pub mod Cycle
use joyride.Common.{
  ℕ, suc, ◌+◌, Bytes, codes, same, contains, Bool, true, false, not, ◌&&◌, ◌||◌, Option, none, some,
  List, [], ◌∷◌, length, leb, ◌==◌, if◌then◌else◌,
}
use joyride.Common.Map.{Map, put}
use joyride.Traefik.Records.{Records, new_records, replace_all}
use joyride.Traefik.Parser.{
  is_middleware_only, parse_file, ParsedFile, hosts, unreadable, too_large,
}

-- `env` is the parser's; `deadline` is when the pending timer fires, in milliseconds, and the last
-- three are the metrics.
pub record FileWatcher : Type 0 where
  pub host_ip : Bytes
  pub records : Records
  pub env : Map Bytes
  pub deadline : Option ℕ
  pub parse_errors_total : ℕ
  pub records_total : ℕ
  pub reloads_total : ℕ

unfoldable pub new_file_watcher : Bytes → Map Bytes → Records → FileWatcher
new_file_watcher host_ip env r = record {
  host_ip = host_ip;
  records = r;
  env = env;
  deadline = none;
  parse_errors_total = 0;
  records_total = 0;
  reloads_total = 0;
}

-- An entry of the directory: `is_regular` is none if `Info` fails, `content` none if the file cannot
-- be read.
pub record DirEntry : Type 0 where
  pub name : Bytes
  pub is_dir : Bool
  pub is_regular : Option Bool
  pub content : Option Bytes

abbrev pub has_slash : Bytes → Bool
has_slash [] = false
has_slash (c ∷ s) = c == b'/' || has_slash s

-- `filepath.Ext`: from the last dot on, if no slash is behind it.
unfoldable pub ext : Bytes → Bytes
ext [] = []
ext (c ∷ s) =
    let rest = ext s in
    if not (same rest []) then rest else if c == b'.' && not (has_slash s) then c ∷ s else []

-- `filepath.Base` of a path that does not end in a slash and is not empty.
unfoldable pub base : Bytes → Bytes
base [] = []
base (c ∷ s) = let rest = base s in if has_slash (c ∷ s) then rest else c ∷ s

abbrev pub is_yaml : Bytes → Bool
is_yaml name = same (ext name) (codes ".yml") || same (ext name) (codes ".yaml")

-- The entry passes the tests before `ParseFile`.
abbrev pub is_config : DirEntry → Bool
is_config e =
    not e.is_dir
    && elim e.is_regular [ none ↦ false | some regular ↦ regular ]
    && is_yaml e.name
    && not (is_middleware_only e.name)

-- The loop over the hosts of one file.
unfoldable pub enter_hosts : Bytes → Map Bytes → List Bytes → Map Bytes
enter_hosts ip all_hosts [] = all_hosts
enter_hosts ip all_hosts (h ∷ hs) = enter_hosts ip (put all_hosts h ip) hs

-- What `ParseFile` gave: the hosts entered, or one more error counted.
unfoldable pub enter_parsed : Bytes → Map Bytes × ℕ → ParsedFile → Map Bytes × ℕ
enter_parsed ip (all_hosts, errors) (hosts hs) = (enter_hosts ip all_hosts hs, errors)
enter_parsed ip (all_hosts, errors) unreadable = (all_hosts, suc errors)
enter_parsed ip (all_hosts, errors) too_large = (all_hosts, suc errors)

unfoldable pub enter_entry : FileWatcher → Map Bytes × ℕ → DirEntry → Map Bytes × ℕ
enter_entry fw acc e =
    if is_config e then enter_parsed fw.host_ip acc (parse_file fw.env e.content) else acc

unfoldable pub enter_entries : FileWatcher → Map Bytes × ℕ → List DirEntry → Map Bytes × ℕ
enter_entries fw acc [] = acc
enter_entries fw acc (e ∷ es) = enter_entries fw (enter_entry fw acc e) es

-- The listing is none if `ReadDir` fails.
unfoldable pub load_all_configs : FileWatcher → Option (List DirEntry) → FileWatcher
load_all_configs fw none = fw
load_all_configs fw (some entries) =
    let loaded = enter_entries fw ([], fw.parse_errors_total) entries in
    record fw {
      records = replace_all fw.records loaded.0;
      parse_errors_total = loaded.1;
      records_total = length loaded.0;
      reloads_total = suc fw.reloads_total;
    }

-- An event at the time `now`; a pending timer is stopped.
unfoldable pub handle_event : FileWatcher → ℕ → Bytes → FileWatcher
handle_event fw now name =
    if not (is_yaml name)
    then fw
    else if is_middleware_only (base name)
    then fw
    else record fw { deadline = some (now + 500) }

-- The timer, looked at at the time `now`, with what the directory holds then.
unfoldable pub fire : FileWatcher → ℕ → Option (List DirEntry) → FileWatcher
fire fw now listing = elim fw.deadline [
  | none ↦ fw
  | some due ↦ if leb due now then load_all_configs (record fw { deadline = none }) listing else fw
]
