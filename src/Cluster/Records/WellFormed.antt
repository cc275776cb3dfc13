-- ===== src/Cluster/Records/WellFormed.antt =====
-- The invariant of the store: every key once and in lower case.
use joyride.Common.{
  Bytes, suc, ℤ, same_iff, to_lower, to_lower_idem, true, ◌==◌, if◌then◌else◌, ◌≡◌, arith, is_some,
  Bool-cases, inl, inr,
}
use joyride.Common.Map.{Map, get, put, del, has, IsUnique}
use joyride.Common.Map.Laws.{get-put, get-del, IsUnique-put, IsUnique-del, length-put, length-del}
use joyride.Cluster.Message.{RecordMessage, record_action_add, record_action_remove}
use joyride.Cluster.Records.{
  Records, new_records, add, remove, count, add_with_meta, remove_with_meta, apply_message, lookup,
  is_stale,
}

-- Only lower-case keys hold anything.
abbrev pub IsLower {ℓ} : {V : Type ℓ} → Map V → Type 0
IsLower m = (k : Bytes) → has m k ≡ true → to_lower k ≡ k

pub IsLower-put {ℓ} :
    {V : Type ℓ} (m : Map V) (k : Bytes) (v : V) → IsLower m → IsLower (put m (to_lower k) v)
IsLower-put m k v l j h =
    ground (arith, get-put m (to_lower k) j v, same_iff (to_lower k) j, to_lower_idem k, l j)

pub IsLower-del {ℓ} : {V : Type ℓ} (m : Map V) (k : Bytes) → IsLower m → IsLower (del m k)
IsLower-del m k l j h = ground (arith, get-del m k j, l j)

pub record IsWellFormed (r : Records) : Type 0 where
  pub data_unique : IsUnique r.data_map
  pub meta_unique : IsUnique r.meta_map
  pub data_lower : IsLower r.data_map
  pub meta_lower : IsLower r.meta_map

pub new_records-IsWellFormed : IsWellFormed new_records
unfolding new_records get
new_records-IsWellFormed = record {
  data_unique = tt;
  meta_unique = tt;
  data_lower = λ k h. cc;
  meta_lower = λ k h. cc;
}

pub add-IsWellFormed : (r : Records) (h ip : Bytes) → IsWellFormed r → IsWellFormed (add r h ip)
unfolding add
add-IsWellFormed r h ip w = record {
  data_unique = IsUnique-put r.data_map (to_lower h) ip w.data_unique;
  meta_unique = w.meta_unique;
  data_lower = IsLower-put r.data_map h ip w.data_lower;
  meta_lower = w.meta_lower;
}

pub remove-IsWellFormed : (r : Records) (h : Bytes) → IsWellFormed r → IsWellFormed (remove r h)
unfolding remove
remove-IsWellFormed r h w = elim (Bool-cases (has r.data_map (to_lower h))) [
  | inl e ↦ rw e (record {
    data_unique = IsUnique-del r.data_map (to_lower h) w.data_unique;
    meta_unique = w.meta_unique;
    data_lower = IsLower-del r.data_map (to_lower h) w.data_lower;
    meta_lower = w.meta_lower;
  })
  | inr e ↦ rw e w
]

pub add_with_meta-IsWellFormed :
    (r : Records) (h ip : Bytes) (t : ℤ) (n : Bytes)
    → IsWellFormed r
    → IsWellFormed (add_with_meta r h ip t n).0
unfolding add_with_meta
add_with_meta-IsWellFormed r h ip t n w =
    elim (Bool-cases (is_stale (get r.meta_map (to_lower h)) t n)) [
      | inl e ↦ rw e w
      | inr e ↦ rw e (record {
        data_unique = IsUnique-put r.data_map (to_lower h) ip w.data_unique;
        meta_unique = IsUnique-put r.meta_map (to_lower h) _ w.meta_unique;
        data_lower = IsLower-put r.data_map h ip w.data_lower;
        meta_lower = IsLower-put r.meta_map h _ w.meta_lower;
      })
    ]

deleted-IsWellFormed :
    (r : Records) (k : Bytes)
    → IsWellFormed r
    → IsWellFormed (record { data_map = del r.data_map k; meta_map = del r.meta_map k })
deleted-IsWellFormed r k w = record {
  data_unique = IsUnique-del r.data_map k w.data_unique;
  meta_unique = IsUnique-del r.meta_map k w.meta_unique;
  data_lower = IsLower-del r.data_map k w.data_lower;
  meta_lower = IsLower-del r.meta_map k w.meta_lower;
}

pub remove_with_meta-IsWellFormed :
    (r : Records) (h : Bytes) (t : ℤ) (n : Bytes)
    → IsWellFormed r
    → IsWellFormed (remove_with_meta r h t n).0
unfolding remove_with_meta
remove_with_meta-IsWellFormed r h t n w = elim (Bool-cases (has r.data_map (to_lower h))) [
  | inl e ↦ elim (Bool-cases (is_stale (get r.meta_map (to_lower h)) t n)) [
    | inl f ↦ rw (e, f) w
    | inr f ↦ rw (e, f) (deleted-IsWellFormed r (to_lower h) w)
  ]
  | inr e ↦ rw e w
]

pub apply_message-IsWellFormed :
    (r : Records) (m : RecordMessage) → IsWellFormed r → IsWellFormed (apply_message r m).0
unfolding apply_message
apply_message-IsWellFormed r m w = elim (Bool-cases (m.action == record_action_add)) [
  | inl e ↦ rw e (add_with_meta-IsWellFormed r m.hostname m.ip m.timestamp m.node_id w)
  | inr e ↦ elim (Bool-cases (m.action == record_action_remove)) [
    | inl f ↦ rw (e, f) (remove_with_meta-IsWellFormed r m.hostname m.timestamp m.node_id w)
    | inr f ↦ rw (e, f) w
  ]
]

-- One call of a method that writes.
pub data Step (r : Records) : Records → Type 0 where
  adding : (h ip : Bytes) → Step r (add r h ip)
  removing : (h : Bytes) → Step r (remove r h)
  applying : (m : RecordMessage) → Step r (apply_message r m).0

-- The stores that calls can lead to.
pub data Reach : Records → Type 0 where
  start : Reach new_records
  next : {r s : Records} → Reach r → Step r s → Reach s

Step-IsWellFormed : {r s : Records} → Step r s → IsWellFormed r → IsWellFormed s
Step-IsWellFormed {r} (adding h ip) w = add-IsWellFormed r h ip w
Step-IsWellFormed {r} (removing h) w = remove-IsWellFormed r h w
Step-IsWellFormed {r} (applying m) w = apply_message-IsWellFormed r m w

-- A store that any calls of the writing methods have led to from an empty one holds each key once
-- in each of its two maps, and no key that is not in lower case.
pub Reach-IsWellFormed : {r : Records} → Reach r → IsWellFormed r
Reach-IsWellFormed start = new_records-IsWellFormed
Reach-IsWellFormed (next p s) = Step-IsWellFormed s (Reach-IsWellFormed p)

-- On a well-formed store `Count` goes up by one exactly for a new hostname, and down by one
-- exactly for a known one.
count-add-remove :
    (r : Records) (h ip : Bytes)
    → IsWellFormed r
    → (count (add r h ip) ≡ (if is_some (lookup r h) then count r else suc (count r)))
      × (count r ≡ (if is_some (lookup r h) then suc (count (remove r h)) else count (remove r h)))
unfolding count add remove lookup
count-add-remove r h ip w = (
  length-put r.data_map (to_lower h) ip,
  ground (arith, length-del r.data_map (to_lower h) w.data_unique),
)
