-- ===== src/Cluster/Records/Stamp.antt =====
-- The order on stamps (timestamp, node) behind last-write-wins.
use joyride.Common.{
  sym, ℤ, pos, negsuc, ◌<ℤ◌, ◌==ℤ◌, less, less_irrefl, less_trans, less_total, true, false, ◌≡◌,
  refl, ◌⊎◌, inl, inr, arith,
}
use joyride.Cluster.Records.{RecordMeta, rejects}

-- `a` is the older of two stamps: an update stamped `b` replaces a record stamped `a`.
abbrev pub Before : RecordMeta → RecordMeta → Type 0
Before a b = rejects a b.timestamp b.node_id ≡ false

<ℤ_trans : (a b c : ℤ) → (a <ℤ b) ≡ true → (b <ℤ c) ≡ true → (a <ℤ c) ≡ true
<ℤ_trans (pos a) (pos b) (pos c) p q = ground arith
<ℤ_trans (negsuc a) (pos b) (pos c) p q = refl
<ℤ_trans (negsuc a) (negsuc b) (pos c) p q = refl
<ℤ_trans (negsuc a) (negsuc b) (negsuc c) p q = ground arith
<ℤ_trans _ _ _ p q = cc

==ℤ-eq : (a b : ℤ) → (a ==ℤ b) ≡ true → a ≡ b
==ℤ-eq (pos a) (pos b) p = ground arith
==ℤ-eq (negsuc a) (negsuc b) p = ground arith
==ℤ-eq _ _ p = cc

==ℤ_refl : (a : ℤ) → (a ==ℤ a) ≡ true
==ℤ_refl (pos a) = ground arith
==ℤ_refl (negsuc a) = ground arith

<ℤ_irrefl : (a : ℤ) → (a <ℤ a) ≡ false
<ℤ_irrefl (pos a) = ground arith
<ℤ_irrefl (negsuc a) = ground arith

<ℤ_total : (a b : ℤ) → ((a <ℤ b) ≡ true) ⊎ ((a ≡ b) ⊎ ((b <ℤ a) ≡ true))
<ℤ_total (pos a) (pos b) = ground arith
<ℤ_total (pos a) (negsuc b) = ground arith
<ℤ_total (negsuc a) (pos b) = ground arith
<ℤ_total (negsuc a) (negsuc b) = ground arith

-- The order, in two cases.
pub Before-cases :
    (a b : RecordMeta)
    → Before a b
    → ((a.timestamp <ℤ b.timestamp) ≡ true)
      ⊎ ((a.timestamp ≡ b.timestamp) × (less a.node_id b.node_id ≡ true))
unfolding rejects
Before-cases a b h = ground (arith, <ℤ_total a.timestamp b.timestamp, ==ℤ_refl a.timestamp)

pub Before-later : (a b : RecordMeta) → (a.timestamp <ℤ b.timestamp) ≡ true → Before a b
unfolding rejects
Before-later a b h = ground (
  arith,
  <ℤ_trans a.timestamp b.timestamp a.timestamp h,
  <ℤ_irrefl a.timestamp,
  ==ℤ-eq a.timestamp b.timestamp,
)

pub Before-tie :
    (a b : RecordMeta) → a.timestamp ≡ b.timestamp → less a.node_id b.node_id ≡ true → Before a b
unfolding rejects
Before-tie a b h k = ground (arith, <ℤ_irrefl a.timestamp)

pub Before-irrefl : (a : RecordMeta) → ¬ Before a a
unfolding rejects
Before-irrefl a h =
    ground (arith, ==ℤ_refl a.timestamp, <ℤ_irrefl a.timestamp, less_irrefl a.node_id)

pub Before-trans : (a b c : RecordMeta) → Before a b → Before b c → Before a c
Before-trans a b c p q = elim (Before-cases a b p) [
  | inl x ↦ elim (Before-cases b c q) [
    | inl y ↦ Before-later a c (<ℤ_trans a.timestamp b.timestamp c.timestamp x y)
    | inr (y, k) ↦ Before-later a c (rw y at x)
  ]
  | inr (x, k) ↦ elim (Before-cases b c q) [
    | inl y ↦ Before-later a c (rw (← x) at y)
    | inr (y, l) ↦ Before-tie a c (cc) (less_trans a.node_id b.node_id c.node_id k l)
  ]
]

pub Before-total : (a b : RecordMeta) → Before a b ⊎ ((a ≡ b) ⊎ Before b a)
Before-total a b = elim (<ℤ_total a.timestamp b.timestamp) [
  | inl x ↦ inl (Before-later a b x)
  | inr (inr x) ↦ inr (inr (Before-later b a x))
  | inr (inl x) ↦ elim (less_total a.node_id b.node_id) [
    | inl k ↦ inl (Before-tie a b x k)
    | inr (inr k) ↦ inr (inr (Before-tie b a (sym x) k))
    | inr (inl k) ↦ inr (inl (λ i. record { timestamp = x i; node_id = k i }))
  ]
]
