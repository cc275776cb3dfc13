-- ===== src/Cluster/Setup/Secret.antt =====
-- Where the key of the cluster comes from.
use joyride.Common.{
  Bytes, codes, same, same_iff, Option, none, some, List, [], ◌∷◌, ◌≡◌, refl, ap, ◌∙◌, arith,
  Option-cases, inl, inr, if◌then◌else◌,
}
use joyride.Cluster.Config.{
  new_cluster_config, ClusterConfig, Hostname, Validated, valid, invalid, validate,
}
use joyride.Cluster.Setup.Checked.{bind-ok}
use joyride.Cluster.Setup.{
  Property, Settings, default_settings, with_cluster, unknown_property, Result, ok, err, bind,
  set_property, set_with_argument, add_labels, set_one, set_all,
}
use joyride.Cluster.Setup.Settle.{
  Env, when_set, env_serf, env_nxdomain, env_unknown_action, env_port, env_discovery_port,
  overrides, override_all, validated, settle, parse_config,
}

-- A step that succeeds leaves the secret as it was.
abbrev Keeps : Result Settings → Settings → Type 0
Keeps r s = (t : Settings) → r ≡ ok t → t.cluster.secret_key ≡ s.cluster.secret_key

abbrev KeepsIfKnown : Option (Result Settings) → Settings → Type 0
KeepsIfKnown none s = Unit
KeepsIfKnown (some r) s = Keeps r s

set_property-Keeps : (s : Settings) (name arg : Bytes) → KeepsIfKnown (set_property s name arg) s
unfolding set_property bind
set_property-Keeps s name arg = ground arith

add_labels-Keeps : (s : Settings) (args : List Bytes) → Keeps (add_labels s args) s
unfolding add_labels
add_labels-Keeps s [] t h = cc
add_labels-Keeps s (a ∷ args) t h = ground arith

with_arg-Keeps :
    (s : Settings) (p : Property) (arg : Bytes)
    → Keeps
        (elim (set_property s p.name arg) [ none ↦ err (unknown_property p.name) | some r ↦ r ])
        s
with_arg-Keeps s p arg = ground (arith, set_property-Keeps s p.name arg)

set_with_argument-Keeps : (s : Settings) (p : Property) → Keeps (set_with_argument s p) s
unfolding set_with_argument
set_with_argument-Keeps s p t h = elim (Option-cases (set_property s p.name [])) [
  | inl e ↦ cc (rw (e, set_with_argument) at h)
  | inr (r, e) ↦ elim (Option-cases p.next_arg) [
    | inl f ↦ cc (rw (e, f, set_with_argument) at h)
    | inr (arg, f) ↦ with_arg-Keeps s p arg t (rw (e, f, set_with_argument) at h)
  ]
]

set_one-Keeps : (s : Settings) (p : Property) → Keeps (set_one s p) s
unfolding set_one
set_one-Keeps s p t h =
    ground (arith, add_labels-Keeps s p.remaining_args t, set_with_argument-Keeps s p t, h)

set_all-Keeps : (s : Settings) (ps : List Property) → Keeps (set_all s ps) s
unfolding set_all
set_all-Keeps s [] t h = ground arith
set_all-Keeps s (p ∷ ps) t h =
    let (a, (e, q)) = bind-ok (set_one s p) (λ a. set_all a ps) t h in
    set_all-Keeps a ps t q ∙ set_one-Keeps s p a e

-- The overrides, if they all succeed, take a secret to `out` of it.
abbrev Effect : List (Settings → Result Settings) → (Bytes → Bytes) → Type 0
Effect fs out =
    (s t : Settings) → override_all fs s ≡ ok t → t.cluster.secret_key ≡ out s.cluster.secret_key

Effect-nil : Effect [] (λ k. k)
unfolding override_all
Effect-nil s t h = ground arith

Effect-keep :
    (f : Settings → Result Settings) (fs : List (Settings → Result Settings)) (out : Bytes → Bytes)
    → ((s : Settings) → Keeps (f s) s)
    → Effect fs out
    → Effect (f ∷ fs) out
unfolding override_all
Effect-keep f fs out k e s t h =
    let (a, (p, q)) = bind-ok (f s) (override_all fs) t h in e a t q ∙ ap out (k s a p)

when_set-Keeps :
    (env : Env) (key : Bytes) (change : Settings → Bytes → Result Settings)
    → ((s : Settings) (v : Bytes) → Keeps (change s v) s)
    → (s : Settings) → Keeps (when_set env key change s) s
unfolding when_set
when_set-Keeps env key change k s t h = ground (arith, k s (env key) t, h)

Effect-when :
    (env : Env) (key : Bytes) (change : Settings → Bytes → Result Settings)
    (fs : List (Settings → Result Settings)) (out : Bytes → Bytes)
    → ((s : Settings) (v : Bytes) → Keeps (change s v) s)
    → Effect fs out
    → Effect (when_set env key change ∷ fs) out
Effect-when env key change fs out k e =
    Effect-keep (when_set env key change) fs out (when_set-Keeps env key change k) e

when_set-secret :
    (env : Env) (key : Bytes) (s t : Settings)
    → when_set env key (λ s v. ok (with_cluster s (record s.cluster { secret_key = v }))) s ≡ ok t
    → t.cluster.secret_key ≡ (if same (env key) [] then s.cluster.secret_key else env key)
unfolding when_set
when_set-secret env key s t h = ground (arith, h)

Effect-secret :
    (env : Env) (key : Bytes) (fs : List (Settings → Result Settings))
    → Effect fs (λ k. k)
    → Effect
        (when_set env key (λ s v. ok (with_cluster s (record s.cluster { secret_key = v }))) ∷ fs)
        (λ k. if same (env key) [] then k else env key)
unfolding override_all
Effect-secret env key fs e s t h =
    let (a, (p, q)) =
      bind-ok
        (when_set env key (λ s v. ok (with_cluster s (record s.cluster { secret_key = v }))) s)
        (override_all fs) t h in
    e a t q ∙ when_set-secret env key s a p

env_port-Keeps : (s : Settings) (v : Bytes) → Keeps (env_port s v) s
unfolding env_port bind
env_port-Keeps s v t h = ground arith

env_discovery_port-Keeps : (s : Settings) (v : Bytes) → Keeps (env_discovery_port s v) s
unfolding env_discovery_port bind
env_discovery_port-Keeps s v t h = ground arith

env_unknown_action-Keeps : (s : Settings) (v : Bytes) → Keeps (env_unknown_action s v) s
unfolding env_unknown_action bind
env_unknown_action-Keeps s v t h = ground arith

env_nxdomain-Keeps : (s : Settings) (v : Bytes) → Keeps (env_nxdomain s v) s
unfolding env_nxdomain
env_nxdomain-Keeps s v t h = ground arith

env_serf-Keeps : (s : Settings) (v : Bytes) → Keeps (env_serf s v) s
unfolding env_serf
env_serf-Keeps s v t h = ground arith

overrides-Effect :
    (env : Env)
    → Effect
        (overrides env)
        (λ k. if same (env (codes "CLUSTER_SECRET")) [] then k else env (codes "CLUSTER_SECRET"))
unfolding overrides
overrides-Effect env = Effect-when env _ _ _ _ env_serf-Keeps (
    Effect-when env _ _ _ _ env_nxdomain-Keeps (
      Effect-when env _ _ _ _ (λ s v t h. ground arith)
        (Effect-when env _ _ _ _ (λ s v t h. ground arith)
          (Effect-when env _ _ _ _ env_unknown_action-Keeps (
            Effect-when env _ _ _ _ env_serf-Keeps (
              Effect-when env _ _ _ _ env_port-Keeps (
                Effect-when env _ _ _ _ (λ s v t h. ground arith)
                  (Effect-when env _ _ _ _ (λ s v t h. ground arith)
                    (Effect-when env _ _ _ _ (λ s v t h. ground arith)
                      (Effect-secret env (codes "CLUSTER_SECRET") _
                        (Effect-when env _ _ _ _ env_discovery_port-Keeps Effect-nil)))))))))))

validate-secret :
    (hostname : Hostname) (c d : ClusterConfig)
    → validate hostname c ≡ valid d
    → d.secret_key ≡ c.secret_key
unfolding validate
validate-secret hostname c d h = ground arith

validated-Keeps :
    (hostname : Hostname) (s : Settings) (v : Validated)
    → validate hostname s.cluster ≡ v
    → Keeps (validated s v) s
validated-Keeps hostname s (invalid e) p t h = cc
validated-Keeps hostname s (valid c) p t h = ground (arith, validate-secret hostname s.cluster c p)

settle-Keeps : (hostname : Hostname) (s : Settings) → Keeps (settle hostname s) s
unfolding settle
settle-Keeps hostname s t h =
    ground (arith, validated-Keeps hostname s (validate hostname s.cluster) refl t, h)

default_settings-secret : default_settings.cluster.secret_key ≡ []
unfolding default_settings new_cluster_config
default_settings-secret = refl

-- The key of the cluster in settings that `parseConfig` returns is the value of the environment
-- variable CLUSTER_SECRET, and empty if that is not set: nothing in the configuration file, whatever
-- its properties are, can set it.
pub parse_config-secret_key :
    (env : Env) (hostname : Hostname) (props : List Property) (s : Settings)
    → parse_config env hostname props ≡ ok s
    → s.cluster.secret_key ≡ env (codes "CLUSTER_SECRET")
unfolding parse_config
parse_config-secret_key env hostname props s h =
    let (t, (p, q)) =
      bind-ok (bind (set_all default_settings props) (override_all (overrides env)))
        (settle hostname) s h in
    let (a, (p1, p2)) =
      bind-ok (set_all default_settings props) (override_all (overrides env)) t p in
    settle-Keeps hostname t s q
    ∙ overrides-Effect env a t p2
    ∙ ground (
      arith,
      set_all-Keeps default_settings props a p1,
      default_settings-secret,
      same_iff (env (codes "CLUSTER_SECRET")) [],
    )
