-- ===== src/Tests/Setups.antt =====
-- plugins/docker-cluster/setup.go.
use joyride.Common.{
  pos, negsuc, Bytes, codes, same, none, some, List, [], ◌∷◌, ◌≡◌, ◌≢◌, refl, if◌then◌else◌,
}
use joyride.Common.Numbers.{digits_value, parse_digits, parse_uint32, positive, negative, atoi}
use joyride.Cluster.Config.{named, new_cluster_config, validate}
use joyride.Cluster.Setup.{
  Property, Settings, default_settings, ok, bind, set_property, set_with_argument, set_one, set_all,
}
use joyride.Cluster.Setup.Settle.{Env, when_set, overrides, override_all, settle, parse_config}
use joyride.Cluster.Setup.Checked.{IsSettled, parse_config-IsSettled}
use joyride.Cluster.Setup.Secret.{parse_config-secret_key}

-- Only the address of the host and the key are in the environment.
abbrev env : Env
env key =
    if same key (codes "HOSTIP")
    then codes "10.0.0.1"
    else if same key (codes "CLUSTER_SECRET")
    then codes "0123456789abcdef"
    else []

abbrev property : Bytes → Bytes → Property
property name arg = record { name = name; next_arg = some arg; remaining_args = arg ∷ [] }

-- The block names another address, a time to live and a port.
abbrev block : List Property
block =
    property (codes "host_ip") (codes "10.9.9.9")
    ∷ property (codes "ttl") (codes "30")
    ∷ property (codes "cluster_port") (codes "+7000")
    ∷ []

abbrev settings : Settings
settings = record {
  docker_socket = default_settings.docker_socket;
  host_ip = codes "10.0.0.1";
  labels = codes "coredns.host.name" ∷ codes "joyride.host.name" ∷ [];
  ttl = 30;
  fall_zones = none;
  unknown_action = default_settings.unknown_action;
  cluster = record new_cluster_config { port = pos 7000; secret_key = codes "0123456789abcdef" };
}

block-ok : parse_config env (named (codes "a")) block ≡ ok settings
unfolding parse_config set_all set_one set_with_argument set_property bind override_all overrides
    when_set settle validate default_settings new_cluster_config same parse_uint32 atoi positive
    parse_digits digits_value
block-ok = refl

-- The smallest integer is read, and the one below it is not.
smallest : atoi (codes "-9223372036854775808") ≡ some (negsuc 9223372036854775807)
unfolding atoi negative parse_digits digits_value
smallest = refl

too_small : atoi (codes "-9223372036854775809") ≡ none
unfolding atoi negative parse_digits digits_value
too_small = refl

has_name : codes "a" ≢ []
has_name h = cc

parse_config-IsSettled_example : IsSettled settings
parse_config-IsSettled_example =
    parse_config-IsSettled env (codes "a") block settings has_name block-ok

parse_config-secret_key_example : settings.cluster.secret_key ≡ env (codes "CLUSTER_SECRET")
parse_config-secret_key_example =
    parse_config-secret_key env (named (codes "a")) block settings block-ok
