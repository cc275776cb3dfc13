-- ===== src/Cluster/Config.antt =====
-- plugins/docker-cluster/cluster_config.go: the cluster configuration and its validation.
pub mod Valid
use joyride.Common.{
  ℕ, ℤ, pos, ◌<ℤ◌, Bytes, codes, same, Bool, true, false, not, ◌&&◌, ◌||◌, Option, none, some, List,
  [], ◌∷◌, length, ltb, ◌==◌, if◌then◌else◌,
}

pub record ClusterConfig : Type 0 where
  pub enabled : Bool
  pub port : ℤ
  pub seeds : List Bytes
  pub node_name : Bytes
  pub bind_addr : Bytes
  pub secret_key : Bytes
  pub discovery_port : ℤ

unfoldable pub new_cluster_config : ClusterConfig
new_cluster_config = record {
  enabled = false;
  port = pos 7946;
  seeds = [];
  node_name = [];
  bind_addr = codes "0.0.0.0";
  secret_key = [];
  discovery_port = pos 8889;
}

-- The three errors of `Validate`, the last with the error of `os.Hostname`.
pub data ConfigError : Type 0 where
  bad_port : ℤ → ConfigError
  bad_secret_length : ℕ → ConfigError
  no_node_name : Bytes → ConfigError

-- The error, or nil with the configuration that `Validate` leaves.
pub data Validated : Type 0 where
  valid : ClusterConfig → Validated
  invalid : ConfigError → Validated

-- `os.Hostname()`: the name or the error.
pub data Hostname : Type 0 where
  named : Bytes → Hostname
  unnamed : Bytes → Hostname

abbrev pub is_bad_port : ℤ → Bool
is_bad_port p = not (pos 0 <ℤ p) || not (p <ℤ pos 65536)

abbrev pub is_bad_key : Bytes → Bool
is_bad_key key =
    ltb 0 (length key)
    && (not (length key == 16) && not (length key == 24) && not (length key == 32))

unfoldable pub validate : Hostname → ClusterConfig → Validated
validate hostname c =
    if is_bad_port c.port
    then invalid (bad_port c.port)
    else if is_bad_key c.secret_key
    then invalid (bad_secret_length (length c.secret_key))
    else if c.enabled && same c.node_name []
    then elim hostname [
      | named name ↦ valid (record c { node_name = name })
      | unnamed err ↦ invalid (no_node_name err)
    ]
    else valid c
