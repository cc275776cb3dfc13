-- ===== src/Cluster/Config/Valid.antt =====
-- What a validated configuration is.
use joyride.Common.{
  ◌≤◌, ℤ, pos, negsuc, Bytes, same, same_iff, Bool, true, false, ◌&&◌, [], length, ◌≡◌, ◌≢◌, ◌⊎◌,
  ◌↔◌, inl, inr, sym, subst, arith, Bool-cases, if◌then◌else◌,
}
use joyride.Cluster.Config.{
  ClusterConfig, Hostname, named, valid, is_bad_port, is_bad_key, validate,
}

-- A port that a socket can have.
abbrev pub IsPort : ℤ → Type 0
IsPort (pos n) = (1 ≤ n) × (n ≤ 65535)
IsPort (negsuc n) = ⊥

-- No key, or one for AES-128, AES-192 or AES-256.
abbrev pub IsKey : Bytes → Type 0
IsKey key = (length key ≡ 0) ⊎ ((length key ≡ 16) ⊎ ((length key ≡ 24) ⊎ (length key ≡ 32)))

IsPort-of : (p : ℤ) → is_bad_port p ≡ false → IsPort p
IsPort-of (pos n) h = ground arith
IsPort-of (negsuc n) h = cc

bad_of_IsPort : (p : ℤ) → IsPort p → is_bad_port p ≡ false
bad_of_IsPort (pos n) h = ground arith
bad_of_IsPort (negsuc n) h = absurd h

pub record IsValid (c : ClusterConfig) : Type 0 where
  pub port : IsPort c.port
  pub key : IsKey c.secret_key
  pub name : c.enabled ≡ true → c.node_name ≢ []

IsKey-of : (key : Bytes) → is_bad_key key ≡ false → IsKey key
IsKey-of key h = ground arith

bad_of_IsKey : (key : Bytes) → IsKey key → is_bad_key key ≡ false
bad_of_IsKey key h = ground arith

Bool-and : (a b : Bool) → (a && b) ≡ true → (a ≡ true) × (b ≡ true)
Bool-and a b h = (ground arith, ground arith)

-- The configuration given, or with the name of the host where a node in a cluster had none.
abbrev pub Completes : Bytes → ClusterConfig → ClusterConfig → Type 0
Completes name c d =
    (d ≡ c) ⊎ ((c.enabled ≡ true) × (c.node_name ≡ []) × (d ≡ record c { node_name = name }))

module _ (name : Bytes) (ne : name ≢ []) (c : ClusterConfig) where
  accepted :
      IsPort c.port
      → IsKey c.secret_key
      → (d : ClusterConfig)
      → (if c.enabled && same c.node_name []
          then valid (record c { node_name = name })
          else valid c)
        ≡ valid d
      → IsValid d × Completes name c d
  accepted p k d h = elim (Bool-cases (c.enabled && same c.node_name [])) [
    | inl e ↦
        let same_d : record c { node_name = name } ≡ d = cc (rw e at h) in
        (
          subst IsValid same_d (record { port = p; key = k; name = λ on. ne }),
          inr (
            (Bool-and c.enabled (same c.node_name []) e).0,
            (same_iff c.node_name []).0 (Bool-and c.enabled (same c.node_name []) e).1,
            sym same_d,
          ),
        )
    | inr e ↦
        let same_d : c ≡ d = cc (rw e at h) in
        (
          subst IsValid same_d (record {
            port = p;
            key = k;
            name = λ on empty. ground (arith, same_iff c.node_name []);
          }),
          inl (sym same_d),
        )
  ]

  sound : (d : ClusterConfig) → validate (named name) c ≡ valid d → IsValid d × Completes name c d
  unfolding validate
  sound d h = elim (Bool-cases (is_bad_port c.port)) [
    | inl e ↦ cc (rw e at h)
    | inr e ↦ elim (Bool-cases (is_bad_key c.secret_key)) [
      | inl f ↦ cc (rw (e, f) at h)
      | inr f ↦ accepted (IsPort-of c.port e) (IsKey-of c.secret_key f) d (rw (e, f) at h)
    ]
  ]

pub complete : (hostname : Hostname) (c : ClusterConfig) → IsValid c → validate hostname c ≡ valid c
unfolding validate
complete hostname c v =
    rw (bad_of_IsPort c.port v.port, bad_of_IsKey c.secret_key v.key)
      (ground (arith, same_iff c.node_name [], v.name))

module _ (name : Bytes) (c : ClusterConfig) where
  completed :
      IsValid (record c { node_name = name })
      → c.enabled ≡ true
      → c.node_name ≡ []
      → validate (named name) c ≡ valid (record c { node_name = name })
  unfolding validate
  completed v on empty =
      rw (bad_of_IsPort c.port v.port, bad_of_IsKey c.secret_key v.key)
        (ground (arith, same_iff c.node_name [], on, empty))

  from_valid :
      (d : ClusterConfig) → IsValid d → Completes name c d → validate (named name) c ≡ valid d
  from_valid d v (inl e) = rw (e) (complete (named name) c (subst IsValid e v))
  from_valid d v (inr (on, empty, e)) = rw (e) (completed (subst IsValid e v) on empty)

-- On a host that has a name, `Validate` accepts a configuration and leaves another exactly if the
-- other has a port from 1 to 65535, no key or a key of 16, 24 or 32 bytes, and, with clustering
-- enabled, a node name, and is the one given but for that name, which is the host's where it was
-- missing and clustering is enabled. So a missing node name is no error on such a host, and a key of
-- another length is one.
pub validate-IsValid :
    (name : Bytes) (c d : ClusterConfig)
    → name ≢ []
    → (validate (named name) c ≡ valid d) ↔ (IsValid d × Completes name c d)
validate-IsValid name c d ne = (sound name ne c d, λ (v, e). from_valid name c d v e)
