-- ===== src/Traefik/Setup/Checked.antt =====
-- What holds of a configuration that `parseConfig` returns, and when it comes to serve.
use joyride.Common.{
  ℕ, ◌^◌, Bytes, codes, Bool, true, false, Option, none, List, [], ◌∷◌, ltb, ◌≡◌, ◌≢◌, ◌↔◌, refl,
  arith, Option-cases, inl, inr,
}
use joyride.Common.Map.{Map}
use joyride.Common.Numbers.{parse_uint32, parse_uint32_bound}
use joyride.Traefik.Records.{new_records}
use joyride.Traefik.FileWatcher.{new_file_watcher}
use joyride.Traefik.Setup.{
  Property, Settings, default_settings, SetupError, Result, ok, err, ◌>>=◌, set_one, set_all, Env,
  or_old, ttl_or_old, override, Configured, refused, serving, is_disabled, settle, parse_config,
  setup,
}

-- The time to live fits in 32 bits.
abbrev Fits : ℕ → Type 0
Fits n = ltb n (2 ^ 32) ≡ true

set_one-Fits : (s t : Settings) (p : Property) → Fits s.ttl → set_one s p ≡ ok t → Fits t.ttl
unfolding set_one
set_one-Fits s t p h e = elim (Option-cases p.next_arg) [
  | inl none_left ↦ ground (arith, e, none_left)
  | inr (arg, at) ↦ ground (arith, e, at, parse_uint32_bound arg t.ttl)
]

>>=-eq-ok :
    {A B : Type 0} (m : Result A) (f : A → Result B) (b : B)
    → (m >>= f) ≡ ok b
    → (a : A) × (m ≡ ok a) × (f a ≡ ok b)
>>=-eq-ok (ok a) f b h = (a, refl, h)
>>=-eq-ok (err e) f b h = cc

set_all-Fits : (s t : Settings) (ps : List Property) → Fits s.ttl → set_all s ps ≡ ok t → Fits t.ttl
unfolding set_all
set_all-Fits s t [] h e = ground (arith, e)
set_all-Fits s t (p ∷ ps) h e =
    let (a, head, rest) = >>=-eq-ok (set_one s p) (λ a. set_all a ps) t e in
    set_all-Fits a t ps (set_one-Fits s a p h head) rest

ttl_or_old-Fits : (text : Bytes) (n : ℕ) → Fits n → Fits (ttl_or_old text n)
ttl_or_old-Fits text n h = elim (Option-cases (parse_uint32 text)) [
  | inl e ↦ ground (arith, e)
  | inr (k, e) ↦ ground (arith, e, parse_uint32_bound text k)
]

or_old_idem : (text old : Bytes) → or_old text old ≡ or_old text (or_old text old)
or_old_idem [] old = refl
or_old_idem (c ∷ s) old = refl

module _ (parse_ip : Bytes → Option Bytes) (vars : Map Bytes) where
  settle-ok :
      (s : Settings) (te : Configured)
      → settle parse_ip vars s ≡ ok te
      → (parse_ip s.host_ip ≢ none)
        × (te ≡ record {
          watcher = new_file_watcher s.host_ip vars new_records;
          directory = s.directory;
          ttl = s.ttl;
          fall_zones = s.fall_zones;
        })
  unfolding settle
  settle-ok s te h = elim (Option-cases (parse_ip s.host_ip)) [
    | inl e ↦ ground (arith, h, e)
    | inr (ip, e) ↦ (λ n. cc, ground (arith, h, e))
  ]

  -- A configuration that `parseConfig` returns has an address that the parser of IP addresses takes,
  -- a time to live that fits in 32 bits, and an empty store; and where HOSTIP or
  -- TRAEFIK_EXTERNALS_DIRECTORY is set in the environment, the address or the directory is that,
  -- whatever the block says.
  pub parse_config-checked :
      (env : Env) (props : List Property) (te : Configured)
      → parse_config parse_ip vars env props ≡ ok te
      → (parse_ip te.watcher.host_ip ≢ none)
        × (ltb te.ttl (2 ^ 32) ≡ true)
        × (te.watcher.records ≡ new_records)
        × (te.watcher.host_ip ≡ or_old (env (codes "HOSTIP")) te.watcher.host_ip)
        × (te.directory ≡ or_old (env (codes "TRAEFIK_EXTERNALS_DIRECTORY")) te.directory)
  unfolding parse_config override new_file_watcher default_settings
  parse_config-checked env props te h =
      let (s, read, settled) =
        >>=-eq-ok (set_all default_settings props) (λ s. settle parse_ip vars (override env s)) te
          h in
      let (valid, is_te) = settle-ok (override env s) te settled in
      rw is_te (
        valid,
        ttl_or_old-Fits (env (codes "TRAEFIK_EXTERNALS_TTL")) s.ttl
            (set_all-Fits default_settings s props refl read),
        refl,
        or_old_idem (env (codes "HOSTIP")) s.host_ip,
        or_old_idem (env (codes "TRAEFIK_EXTERNALS_DIRECTORY")) s.directory,
      )

  -- `setup` leaves the plugin serving exactly if the configuration is valid, the plugin is not
  -- disabled in the environment, the directory is there, and the watcher starts. A configuration
  -- that is not valid is an error of the server, also if the plugin is disabled.
  setup-serving :
      (env : Env) (missing : Bytes → Bool) (start : Option Bytes) (props : List Property)
      (te : Configured) (e : SetupError)
      → ((setup parse_ip vars env missing start props ≡ serving te) ↔ (
          (parse_config parse_ip vars env props ≡ ok te)
          × (is_disabled env ≡ false)
          × (missing te.directory ≡ false)
          × (start ≡ none)))
        × ((setup parse_ip vars env missing start props ≡ refused e)
            ↔ (parse_config parse_ip vars env props ≡ err e))
  unfolding setup
  setup-serving env missing start props te e = cases (parse_config parse_ip vars env props) refl
    where
      cases :
          (r : Result Configured)
          → parse_config parse_ip vars env props ≡ r
          → ((setup parse_ip vars env missing start props ≡ serving te) ↔ (
              (parse_config parse_ip vars env props ≡ ok te)
              × (is_disabled env ≡ false)
              × (missing te.directory ≡ false)
              × (start ≡ none)))
            × ((setup parse_ip vars env missing start props ≡ refused e)
                ↔ (parse_config parse_ip vars env props ≡ err e))
      cases (err f) p = (
        (λ h. ground (arith, p, h), λ h. ground (arith, p, h)),
        (λ h. ground (arith, p, h), λ h. ground (arith, p, h)),
      )
      cases (ok t) p = (
        (λ h. ground (arith, p, h), λ h. ground (arith, p, h)),
        (λ h. ground (arith, p, h), λ h. ground (arith, p, h)),
      )
