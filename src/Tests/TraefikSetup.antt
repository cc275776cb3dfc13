-- ===== src/Tests/TraefikSetup.antt =====
-- plugins/traefik-externals/setup.go.
use joyride.Common.{
  ◌^◌, Bytes, codes, same, to_lower, true, Option, none, some, List, [], ◌∷◌, ltb, ◌≡◌, ◌≢◌, refl,
  if◌then◌else◌,
}
use joyride.Common.Numbers.{digits_value, parse_digits, parse_uint32}
use joyride.Traefik.Records.{new_records}
use joyride.Traefik.FileWatcher.{new_file_watcher}
use joyride.Traefik.Setup.{
  Property, Configured, ok, err, invalid_ttl, Env, or_old, override, default_settings, set_one,
  set_all, settle, parse_config, is_disabled,
}
use joyride.Traefik.Setup.Checked.{parse_config-checked}

-- A parser of addresses that knows one.
abbrev parse_ip : Bytes → Option Bytes
parse_ip s = if same s (codes "10.0.0.1") then some (10 ∷ 0 ∷ 0 ∷ 1 ∷ []) else none

abbrev env : Env
env key =
    if same key (codes "HOSTIP")
    then codes "10.0.0.1"
    else if same key (codes "TRAEFIK_EXTERNALS_TTL")
    then codes "soon"
    else []

abbrev block : List Property
block =
    record { name = codes "host_ip"; next_arg = some (codes "nowhere"); remaining_args = [] }
    ∷ record { name = codes "ttl"; next_arg = some (codes "4294967295"); remaining_args = [] }
    ∷ []

abbrev configured : Configured
configured = record {
  watcher = new_file_watcher (codes "10.0.0.1") [] new_records;
  directory = codes "/etc/traefik/external-enabled";
  ttl = 4294967295;
  fall_zones = none;
}

block-ok : parse_config parse_ip [] env block ≡ ok configured
unfolding parse_config set_all set_one settle override default_settings same parse_uint32
    parse_digits digits_value
block-ok = refl

-- A time to live that needs 33 bits is an error.
too_long :
    set_all default_settings (
      record { name = codes "ttl"; next_arg = some (codes "4294967296"); remaining_args = [] } ∷ [])
    ≡ err (invalid_ttl (codes "4294967296"))
unfolding set_all set_one same parse_uint32 parse_digits digits_value
too_long = refl

left_out_if_disabled : is_disabled (λ key. codes "No") ≡ true
unfolding is_disabled same to_lower
left_out_if_disabled = refl

parse_config-checked_example :
    (parse_ip configured.watcher.host_ip ≢ none)
    × (ltb configured.ttl (2 ^ 32) ≡ true)
    × (configured.watcher.records ≡ new_records)
    × (configured.watcher.host_ip ≡ or_old (env (codes "HOSTIP")) configured.watcher.host_ip)
    × (configured.directory
        ≡ or_old (env (codes "TRAEFIK_EXTERNALS_DIRECTORY")) configured.directory)
parse_config-checked_example = parse_config-checked parse_ip [] env block configured block-ok
