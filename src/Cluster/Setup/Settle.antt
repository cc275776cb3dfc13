-- ===== src/Cluster/Setup/Settle.antt =====
-- plugins/docker-cluster/setup.go: the environment over the block, and what is checked.
use joyride.Common.{Bytes, codes, same, List, [], ◌∷◌, if◌then◌else◌}
use joyride.Common.Numbers.{atoi}
use joyride.Cluster.Config.{Hostname, Validated, valid, invalid, validate}
use joyride.Cluster.Serve.{action_nxdomain}
use joyride.Cluster.Setup.{
  Property, Settings, default_settings, invalid_env, no_host_ip, cluster_error, Result, ok, err,
  bind, value_or, parse_unknown_action, is_yes, parse_seeds, with_cluster, with_port,
  with_discovery_port, set_all,
}

-- `os.Getenv`: empty for a variable that is not set.
abbrev pub Env : Type 0
Env = Bytes → Bytes

-- A variable that is not empty changes the settings.
unfoldable pub when_set :
    Env → Bytes → (Settings → Bytes → Result Settings) → Settings → Result Settings
when_set env key change s = if same (env key) [] then ok s else change s (env key)

unfoldable pub env_serf : Settings → Bytes → Result Settings
env_serf s v = ok (with_cluster s (record s.cluster { enabled = is_yes v }))

unfoldable pub env_nxdomain : Settings → Bytes → Result Settings
env_nxdomain s v = ok (if is_yes v then record s { unknown_action = action_nxdomain } else s)

unfoldable pub env_unknown_action : Settings → Bytes → Result Settings
env_unknown_action s v =
    bind (value_or (invalid_env v) (parse_unknown_action v))
      (λ a. ok (record s { unknown_action = a }))

unfoldable pub env_port : Settings → Bytes → Result Settings
env_port s v = bind (value_or (invalid_env v) (atoi v)) (λ port. ok (with_port s port))

unfoldable pub env_discovery_port : Settings → Bytes → Result Settings
env_discovery_port s v =
    bind (value_or (invalid_env v) (atoi v)) (λ port. ok (with_discovery_port s port))

-- The overrides, in the order of the code.
unfoldable pub overrides : Env → List (Settings → Result Settings)
overrides env =
    when_set env (codes "JOYRIDE_ENABLE_SERF") env_serf
    ∷ when_set env (codes "JOYRIDE_NXDOMAIN_ENABLED") env_nxdomain
    ∷ when_set env (codes "HOSTIP") (λ s v. ok (record s { host_ip = v }))
    ∷ when_set env (codes "DOCKER_SOCKET") (λ s v. ok (record s { docker_socket = v }))
    ∷ when_set env (codes "DNS_UNKNOWN_ACTION") env_unknown_action
    ∷ when_set env (codes "CLUSTER_ENABLED") env_serf
    ∷ when_set env (codes "CLUSTER_PORT") env_port
    ∷ when_set env (codes "CLUSTER_SEEDS")
        (λ s v. ok (with_cluster s (record s.cluster { seeds = parse_seeds v })))
    ∷ when_set env (codes "NODE_NAME")
        (λ s v. ok (with_cluster s (record s.cluster { node_name = v })))
    ∷ when_set env (codes "CLUSTER_BIND_ADDR")
        (λ s v. ok (with_cluster s (record s.cluster { bind_addr = v })))
    ∷ when_set env (codes "CLUSTER_SECRET")
        (λ s v. ok (with_cluster s (record s.cluster { secret_key = v })))
    ∷ when_set env (codes "DISCOVERY_PORT") env_discovery_port
    ∷ []

unfoldable pub override_all : List (Settings → Result Settings) → Settings → Result Settings
override_all [] s = ok s
override_all (f ∷ fs) s = bind (f s) (override_all fs)

abbrev pub default_labels : List Bytes
default_labels = codes "coredns.host.name" ∷ codes "joyride.host.name" ∷ []

abbrev pub or_default : List Bytes → List Bytes
or_default [] = default_labels
or_default (l ∷ ls) = l ∷ ls

abbrev pub with_labels : Settings → Settings
with_labels s = record s { labels = or_default s.labels }

abbrev pub validated : Settings → Validated → Result Settings
validated s (invalid e) = err (cluster_error e)
validated s (valid c) = ok (with_labels (with_cluster s c))

-- What is left once all is read: the required field, the cluster, the labels.
unfoldable pub settle : Hostname → Settings → Result Settings
settle hostname s =
    if same s.host_ip [] then err no_host_ip else validated s (validate hostname s.cluster)

unfoldable pub parse_config : Env → Hostname → List Property → Result Settings
parse_config env hostname props =
    bind (bind (set_all default_settings props) (override_all (overrides env))) (settle hostname)
