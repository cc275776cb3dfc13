-- ===== src/Traefik/Setup.antt =====
-- plugins/traefik-externals/setup.go: parseConfig and what setup decides. Caddy's controller answers
-- for each property of the block, in the order in which NextBlock goes through them.
pub mod Checked
use joyride.Common.{
  ℕ, Bytes, codes, same, to_lower, Bool, true, false, not, ◌||◌, Option, none, some, List, [], ◌∷◌,
  if◌then◌else◌,
}
use joyride.Common.Map.{Map}
use joyride.Common.Numbers.{parse_uint32}
use joyride.Traefik.Records.{Records, new_records}
use joyride.Traefik.FileWatcher.{FileWatcher, new_file_watcher}

-- A property: its name, the argument that NextArg would go to (none if it says no), and the
-- arguments that RemainingArgs would take.
pub record Property : Type 0 where
  pub name : Bytes
  pub next_arg : Option Bytes
  pub remaining_args : List Bytes

-- The local variables of `parseConfig`; `fall_zones` is what `SetZonesFromArgs` was last given.
pub record Settings : Type 0 where
  pub directory : Bytes
  pub host_ip : Bytes
  pub ttl : ℕ
  pub fall_zones : Option (List Bytes)

unfoldable pub default_settings : Settings
default_settings = record {
  directory = codes "/etc/traefik/external-enabled";
  host_ip = [];
  ttl = 60;
  fall_zones = none;
}

pub data SetupError : Type 0 where
  missing_argument : SetupError
  invalid_ttl : Bytes → SetupError
  unknown_property : Bytes → SetupError
  no_host_ip : SetupError
  invalid_host_ip : Bytes → SetupError

pub data Result {ℓ} (A : Type ℓ) : Type ℓ where
  ok : A → Result A
  err : SetupError → Result A

infixl 5 ◌>>=◌
abbrev pub ◌>>=◌ {ℓ κ} : {A : Type ℓ} {B : Type κ} → Result A → (A → Result B) → Result B
ok a >>= f = f a
err e >>= f = err e

abbrev pub require {ℓ} : {A : Type ℓ} → SetupError → Option A → Result A
require e none = err e
require e (some a) = ok a

-- One round of the loop over the block.
unfoldable pub set_one : Settings → Property → Result Settings
set_one s p =
    if same p.name (codes "directory")
    then (do arg ← require missing_argument p.next_arg; ok (record s { directory = arg }))
    else if same p.name (codes "host_ip")
    then (do arg ← require missing_argument p.next_arg; ok (record s { host_ip = arg }))
    else if same p.name (codes "ttl")
    then (do
      arg ← require missing_argument p.next_arg
      parsed ← require (invalid_ttl arg) (parse_uint32 arg)
      ok (record s { ttl = parsed }))
    else if same p.name (codes "fallthrough")
    then ok (record s { fall_zones = some p.remaining_args })
    else err (unknown_property p.name)

unfoldable pub set_all : Settings → List Property → Result Settings
set_all s [] = ok s
set_all s (p ∷ ps) = set_one s p >>= λ t. set_all t ps

-- `os.Getenv`: empty for a variable that is not set.
abbrev pub Env : Type 0
Env = Bytes → Bytes

abbrev pub or_old : Bytes → Bytes → Bytes
or_old [] old = old
or_old (c ∷ s) old = c ∷ s

-- A text that is no number is passed over.
abbrev pub ttl_or_old : Bytes → ℕ → ℕ
ttl_or_old text old =
    if same text [] then old else elim (parse_uint32 text) [ none ↦ old | some n ↦ n ]

-- The overrides by the environment.
unfoldable pub override : Env → Settings → Settings
override env s = record s {
  directory = or_old (env (codes "TRAEFIK_EXTERNALS_DIRECTORY")) s.directory;
  host_ip = or_old (env (codes "HOSTIP")) s.host_ip;
  ttl = ttl_or_old (env (codes "TRAEFIK_EXTERNALS_TTL")) s.ttl;
}

-- `TraefikExternals` before it serves: the store is the watcher's.
pub record Configured : Type 0 where
  pub watcher : FileWatcher
  pub directory : Bytes
  pub ttl : ℕ
  pub fall_zones : Option (List Bytes)

-- What `setup` comes to: an error, the plugin left out, or the watcher started for it.
pub data Decision : Type 0 where
  refused : SetupError → Decision
  not_started : Bytes → Decision
  left_out : Decision
  serving : Configured → Decision

unfoldable pub is_disabled : Env → Bool
is_disabled env =
    let val = env (codes "TRAEFIK_EXTERNALS_ENABLED") in
    if same val []
    then false
    else same (to_lower val) (codes "false")
      || same (to_lower val) (codes "no")
      || same (to_lower val) (codes "0")

-- `parse_ip` is `net.ParseIP`, none for nil, and `vars` the environment that `NewParser` copies.
module _ (parse_ip : Bytes → Option Bytes) (vars : Map Bytes) where
  unfoldable pub settle : Settings → Result Configured
  settle s = if same s.host_ip [] then err no_host_ip else elim (parse_ip s.host_ip) [
    | none ↦ err (invalid_host_ip s.host_ip)
    | some ip ↦ ok (record {
      watcher = new_file_watcher s.host_ip vars new_records;
      directory = s.directory;
      ttl = s.ttl;
      fall_zones = s.fall_zones;
    })
  ]

  unfoldable pub parse_config : Env → List Property → Result Configured
  parse_config env props = do s ← set_all default_settings props; settle (override env s)

  -- `missing` says of a directory that `os.Stat` finds none there, and `start` is the error of
  -- `Watcher.Start`, if it has one.
  unfoldable pub setup : Env → (Bytes → Bool) → Option Bytes → List Property → Decision
  setup env missing start props = elim (parse_config env props) [
    | err e ↦ refused e
    | ok te ↦
        if is_disabled env
        then left_out
        else if missing te.directory
        then left_out
        else elim start [ none ↦ serving te | some e ↦ not_started e ]
  ]
