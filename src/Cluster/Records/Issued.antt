-- ===== src/Cluster/Records/Issued.antt =====
-- Stamps that determine what they stand for: announcements of one hostname commute.
use joyride.Common.{
  Bytes, same, same_iff, to_lower, Bool, true, false, Option, none, some, if◌then◌else◌, ◌≡◌, ap,
  ◌⊎◌, inl, inr, arith, Bool-cases, sym, ◌∙◌,
}
use joyride.Cluster.Message.{RecordMessage, record_action_add}
use joyride.Cluster.Records.{RecordMeta, rejects, is_stale}
use joyride.Cluster.Records.Cell.{Cell, cell_step, step_at, stamp_of}
use joyride.Cluster.Records.Stamp.{Before-total, Before-trans, Before-irrefl}

abbrev pub rejected : RecordMeta → RecordMeta → Bool
rejected a b = rejects a b.timestamp b.node_id

-- A stamp turns itself away.
pub rejected_self : (c : RecordMeta) → rejected c c ≡ true
rejected_self c = elim (Bool-cases (rejected c c)) [
  | inl h ↦ h
  | inr h ↦ absurd (Before-irrefl c h)
]

-- Of two stamps each is turned away by the other, only if they are one.
pub rejects-cases :
    (a b : RecordMeta)
    → ((rejected a b ≡ true) × (rejected b a ≡ false))
      ⊎ (((rejected a b ≡ false) × (rejected b a ≡ true))
          ⊎ ((a ≡ b) × (rejected a b ≡ true) × (rejected b a ≡ true)))
rejects-cases a b = elim (Before-total a b) [
  | inl p ↦ elim (Bool-cases (rejected b a)) [
    | inl q ↦ inr (inl (p, q))
    | inr q ↦ absurd (Before-irrefl a (Before-trans a b a p q))
  ]
  | inr (inl e) ↦ inr (inr (e, rw e (rejected_self b), rw e (rejected_self b)))
  | inr (inr q) ↦ elim (Bool-cases (rejected a b)) [
    | inl p ↦ inl (p, q)
    | inr p ↦ absurd (Before-irrefl a (Before-trans a b a p q))
  ]
]

-- What is not newer than `s` is not newer than what is.
pub rejects-of_newer :
    (s a b : RecordMeta) → rejected s a ≡ false → rejected s b ≡ true → rejected a b ≡ true
rejects-of_newer s a b p q = elim (Bool-cases (rejected a b)) [
  | inl h ↦ h
  | inr h ↦ absurd (cc (Before-trans s a b p h))
]

-- The address that a stamp stands for at a hostname, as its node announced it.
abbrev pub Registry : Type 0
Registry = Bytes → RecordMeta → Bytes

-- The message adds what its stamp stands for.
pub record IsIssued (issued : Registry) (m : RecordMessage) : Type 0 where
  pub adds : m.action ≡ record_action_add
  pub address : m.ip ≡ issued (to_lower m.hostname) (stamp_of m)

abbrev pub announce : Cell → RecordMessage → Cell
announce c m =
    if is_stale c.stamp m.timestamp m.node_id
    then c
    else record { address = some m.ip; stamp = some (stamp_of m) }

pub cell_step_adds :
    (c : Cell) (m : RecordMessage) → m.action ≡ record_action_add → cell_step c m ≡ announce c m
unfolding cell_step
cell_step_adds c m h = ground arith

-- Two announcements with one stamp carry one address.
abbrev Agree : RecordMessage → RecordMessage → Type 0
Agree a b = stamp_of a ≡ stamp_of b → a.ip ≡ b.ip

announce_comm_none :
    (o : Option Bytes) (a b : RecordMessage)
    → Agree a b
    → announce (announce (record { address = o; stamp = none }) a) b
      ≡ announce (announce (record { address = o; stamp = none }) b) a
unfolding is_stale
announce_comm_none o a b agree = elim (rejects-cases (stamp_of a) (stamp_of b)) [
  | inl (p, q) ↦ rw (p, q)
  | inr (inl (p, q)) ↦ rw (p, q)
  | inr (inr (e, p, q)) ↦ rw (p, q) (λ i. record { address = some (agree e i); stamp = some (e i) })
]

announce_comm_some :
    (o : Option Bytes) (s : RecordMeta) (a b : RecordMessage)
    → Agree a b
    → announce (announce (record { address = o; stamp = some s }) a) b
      ≡ announce (announce (record { address = o; stamp = some s }) b) a
unfolding is_stale
announce_comm_some o s a b agree = elim (Bool-cases (rejected s (stamp_of a))) [
  | inl p ↦ elim (Bool-cases (rejected s (stamp_of b))) [
    | inl q ↦ rw (p, q, p)
    | inr q ↦ rw (p, q, rejects-of_newer s (stamp_of b) (stamp_of a) q p)
  ]
  | inr p ↦ elim (Bool-cases (rejected s (stamp_of b))) [
    | inl q ↦ rw (p, q, rejects-of_newer s (stamp_of a) (stamp_of b) p q, p)
    | inr q ↦ rw (p, q) (announce_comm_none o a b agree)
  ]
]

announce_comm :
    (c : Cell) (a b : RecordMessage)
    → Agree a b
    → announce (announce c a) b ≡ announce (announce c b) a
announce_comm c a b agree = go c.stamp
  where
    go :
        (s : Option RecordMeta)
        → announce (announce (record { address = c.address; stamp = s }) a) b
          ≡ announce (announce (record { address = c.address; stamp = s }) b) a
    go none = announce_comm_none c.address a b agree
    go (some s) = announce_comm_some c.address s a b agree

module _ (issued : Registry) where
  -- Messages of one hostname and one stamp agree on the address.
  IsIssued-Agree :
      {a b : RecordMessage}
      → IsIssued issued a
      → IsIssued issued b
      → to_lower a.hostname ≡ to_lower b.hostname
      → Agree a b
  IsIssued-Agree ia ib e s = cc (ia.address, ib.address, e, s)

  -- Two issued messages have one effect in either order, at every hostname.
  pub step_at_comm :
      (h : Bytes) (c : Cell) {a b : RecordMessage}
      → IsIssued issued a
      → IsIssued issued b
      → step_at h (step_at h c a) b ≡ step_at h (step_at h c b) a
  step_at_comm h c {a} {b} ia ib = elim (Bool-cases (same (to_lower a.hostname) h)) [
    | inl p ↦ elim (Bool-cases (same (to_lower b.hostname) h)) [
      | inl q ↦
          let e =
            (same_iff (to_lower a.hostname) h).0 p ∙ sym ((same_iff (to_lower b.hostname) h).0 q) in
          rw (p, q)
            (ap (λ x. cell_step x b) (cell_step_adds c a ia.adds)
              ∙ cell_step_adds (announce c a) b ib.adds
              ∙ announce_comm c a b (IsIssued-Agree ia ib e)
              ∙ sym (cell_step_adds (announce c b) a ia.adds)
              ∙ sym (ap (λ x. cell_step x a) (cell_step_adds c b ib.adds)))
      | inr q ↦ rw (p, q)
    ]
    | inr p ↦ rw p
  ]
