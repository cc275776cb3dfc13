-- ===== src/Cluster/Setup.antt =====
-- plugins/docker-cluster/setup.go: parseConfig. Caddy's controller answers for each property of the
-- block, in the order in which NextBlock goes through them.
pub mod Settle
pub mod Checked
pub mod Secret
use joyride.Common.{
  ℕ, ℤ, Bytes, codes, same, split, trim_space, to_lower, Bool, true, false, ◌||◌, Option, none,
  some, List, [], ◌∷◌, ◌++◌, map, if◌then◌else◌,
}
use joyride.Common.Numbers.{parse_uint32, atoi}
use joyride.Cluster.Config.{ClusterConfig, ConfigError, new_cluster_config}
use joyride.Cluster.Serve.{UnknownAction, action_drop, action_nxdomain}

-- What the controller answers at a property: its name, the argument that NextArg would go to (none
-- if it says no), and the arguments that RemainingArgs would take.
pub record Property : Type 0 where
  pub name : Bytes
  pub next_arg : Option Bytes
  pub remaining_args : List Bytes

-- The local variables of `parseConfig`; `fall_zones` is what `SetZonesFromArgs` was last given.
pub record Settings : Type 0 where
  pub docker_socket : Bytes
  pub host_ip : Bytes
  pub labels : List Bytes
  pub ttl : ℕ
  pub fall_zones : Option (List Bytes)
  pub unknown_action : UnknownAction
  pub cluster : ClusterConfig

unfoldable pub default_settings : Settings
default_settings = record {
  docker_socket = codes "unix:///var/run/docker.sock";
  host_ip = [];
  labels = [];
  ttl = 60;
  fall_zones = none;
  unknown_action = action_drop;
  cluster = new_cluster_config;
}

-- The errors, with the text or the property that they name.
pub data SetupError : Type 0 where
  missing_argument : SetupError
  invalid_value : Bytes → SetupError
  secret_in_corefile : SetupError
  unknown_property : Bytes → SetupError
  invalid_env : Bytes → SetupError
  no_host_ip : SetupError
  cluster_error : ConfigError → SetupError

pub data Result (A : Type 0) : Type 0 where
  ok : A → Result A
  err : SetupError → Result A

unfoldable pub bind : {A B : Type 0} → Result A → (A → Result B) → Result B
bind (ok a) f = f a
bind (err e) f = err e

-- The value of a parser, or the error.
abbrev pub value_or : {A : Type 0} → SetupError → Option A → Result A
value_or e none = err e
value_or e (some a) = ok a

unfoldable pub parse_unknown_action : Bytes → Option UnknownAction
parse_unknown_action s =
    let s = to_lower s in
    if same s (codes "drop") || same s (codes "timeout") || same s (codes "none")
    then some action_drop
    else if same s (codes "nxdomain")
    then some action_nxdomain
    else none

unfoldable pub is_yes : Bytes → Bool
is_yes s =
    let val = to_lower s in
    same val (codes "true") || same val (codes "1") || same val (codes "yes")

unfoldable pub parse_seeds : Bytes → List Bytes
parse_seeds s = map trim_space (split b',' s)

abbrev pub with_cluster : Settings → ClusterConfig → Settings
with_cluster s c = record s { cluster = c }

abbrev pub with_port : Settings → ℤ → Settings
with_port s port = with_cluster s (record s.cluster { port = port })

abbrev pub with_discovery_port : Settings → ℤ → Settings
with_discovery_port s port = with_cluster s (record s.cluster { discovery_port = port })

-- The properties that take one argument; none for another name.
unfoldable pub set_property : Settings → Bytes → Bytes → Option (Result Settings)
set_property s name arg =
    if same name (codes "docker_socket")
    then some (ok (record s { docker_socket = arg }))
    else if same name (codes "host_ip")
    then some (ok (record s { host_ip = arg }))
    else if same name (codes "ttl")
    then some
        (bind (value_or (invalid_value arg) (parse_uint32 arg)) (λ n. ok (record s { ttl = n })))
    else if same name (codes "unknown_action")
    then some (
        bind (value_or (invalid_value arg) (parse_unknown_action arg))
          (λ a. ok (record s { unknown_action = a })))
    else if same name (codes "cluster_enabled")
    then some (ok (with_cluster s (record s.cluster { enabled = is_yes arg })))
    else if same name (codes "cluster_port")
    then some (bind (value_or (invalid_value arg) (atoi arg)) (λ port. ok (with_port s port)))
    else if same name (codes "cluster_seeds")
    then some (ok (with_cluster s (record s.cluster { seeds = parse_seeds arg })))
    else if same name (codes "node_name")
    then some (ok (with_cluster s (record s.cluster { node_name = arg })))
    else if same name (codes "cluster_bind_addr")
    then some (ok (with_cluster s (record s.cluster { bind_addr = arg })))
    else if same name (codes "discovery_port")
    then some
        (bind (value_or (invalid_value arg) (atoi arg)) (λ port. ok (with_discovery_port s port)))
    else none

-- The name was one of those, without or with its argument, or it is unknown.
unfoldable pub set_with_argument : Settings → Property → Result Settings
set_with_argument s p = elim (set_property s p.name []) [
  | none ↦ err (unknown_property p.name)
  | some _ ↦ elim p.next_arg [
    | none ↦ err missing_argument
    | some arg ↦ elim (set_property s p.name arg) [
      | none ↦ err (unknown_property p.name)
      | some result ↦ result
    ]
  ]
]

unfoldable pub add_labels : Settings → List Bytes → Result Settings
add_labels s [] = err missing_argument
add_labels s (a ∷ args) = ok (record s { labels = s.labels ++ (a ∷ args) })

-- One round of the loop over the block.
unfoldable pub set_one : Settings → Property → Result Settings
set_one s p =
    if same p.name (codes "label")
    then add_labels s p.remaining_args
    else if same p.name (codes "fallthrough")
    then ok (record s { fall_zones = some p.remaining_args })
    else if same p.name (codes "cluster_secret")
    then err secret_in_corefile
    else set_with_argument s p

unfoldable pub set_all : Settings → List Property → Result Settings
set_all s [] = ok s
set_all s (p ∷ ps) = bind (set_one s p) (λ t. set_all t ps)
