-- ===== src/Cluster/Setup/Checked.antt =====
-- What holds of the settings that `parseConfig` returns.
use joyride.Common.{
  Bytes, same, same_iff, false, List, [], ◌∷◌, ◌≡◌, ◌≢◌, refl, subst, arith, Bool-cases, inl, inr,
}
use joyride.Cluster.Config.{named, Validated, valid, invalid, validate}
use joyride.Cluster.Config.Valid.{IsValid, validate-IsValid}
use joyride.Cluster.Setup.{
  Property, Settings, default_settings, with_cluster, Result, ok, err, bind, set_all,
}
use joyride.Cluster.Setup.Settle.{
  Env, overrides, override_all, or_default, with_labels, validated, settle, parse_config,
}

-- A DNS server can start with the settings.
pub record IsSettled (s : Settings) : Type 0 where
  pub host : s.host_ip ≢ []
  pub labels : s.labels ≢ []
  pub cluster : IsValid s.cluster

-- A chain that succeeds does so at each step.
pub bind-ok :
    {A B : Type 0} (r : Result A) (f : A → Result B) (b : B)
    → bind r f ≡ ok b
    → (a : A) × ((r ≡ ok a) × (f a ≡ ok b))
unfolding bind
bind-ok (ok a) f b h = (a, (refl, h))
bind-ok (err e) f b h = cc

or_default_not_empty : (ls : List Bytes) → or_default ls ≢ []
or_default_not_empty [] h = cc
or_default_not_empty (l ∷ ls) h = cc

validated-IsSettled :
    (name : Bytes) (s t : Settings) (v : Validated)
    → name ≢ []
    → same s.host_ip [] ≡ false
    → validate (named name) s.cluster ≡ v
    → validated s v ≡ ok t
    → IsSettled t
validated-IsSettled name s t (invalid e) ne h p q = cc
validated-IsSettled name s t (valid c) ne h p q =
    let is_t : with_labels (with_cluster s c) ≡ t = cc in
    subst IsSettled is_t (record {
      host = ground (arith, same_iff s.host_ip [], h);
      labels = or_default_not_empty s.labels;
      cluster = ((validate-IsValid name s.cluster c ne).0 p).0;
    })

settle-IsSettled :
    (name : Bytes) (s t : Settings) → name ≢ [] → settle (named name) s ≡ ok t → IsSettled t
unfolding settle
settle-IsSettled name s t ne h = elim (Bool-cases (same s.host_ip [])) [
  | inl e ↦ cc (rw (e, settle) at h)
  | inr e ↦
      validated-IsSettled name s t (validate (named name) s.cluster) ne e refl (rw (e, settle) at h)
]

-- On a host that has a name: settings that `parseConfig` returns have an address for the host, at
-- least one label to watch, and a valid cluster configuration.
pub parse_config-IsSettled :
    (env : Env) (name : Bytes) (props : List Property) (s : Settings)
    → name ≢ []
    → parse_config env (named name) props ≡ ok s
    → IsSettled s
unfolding parse_config
parse_config-IsSettled env name props s ne h =
    let (t, (p, q)) =
      bind-ok (bind (set_all default_settings props) (override_all (overrides env)))
        (settle (named name)) s h in
    settle-IsSettled name t s ne q
