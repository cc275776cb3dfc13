-- ===== src/Cluster/Records/Behaviour.antt =====
-- What the methods do, seen through `Lookup` and `GetMeta`.
use joyride.Common.{
  Bytes, same, same_iff, same_refl, to_lower, true, false, none, some, if◌then◌else◌, ◌≡◌, ◌↔◌,
  arith, is_some, ◌⊎◌, inl, inr, refl, less, ◌<ℤ◌, Option,
}
use joyride.Common.Map.Laws.{get-put, get-del}
use joyride.Cluster.Message.{RecordMessage, record_action_add, record_action_remove}
use joyride.Cluster.Records.{
  RecordMeta, Records, add, remove, lookup, get_meta, is_stale, add_with_meta, remove_with_meta,
  apply_message,
}
use joyride.Cluster.Records.Stamp.{Before-irrefl, Before-cases, Before-later, Before-tie}
use joyride.Cluster.Records.Cell.{stamp_of}

-- After `Add`, `Lookup` finds the address under every spelling of the hostname; after `Remove` it
-- finds none; and both leave every other hostname as it was.
pub lookup-add-remove :
    (r : Records) (h ip j : Bytes)
    → (lookup (add r h ip) j ≡ (if same (to_lower h) (to_lower j) then some ip else lookup r j))
      × (lookup (remove r h) j ≡ (if same (to_lower h) (to_lower j) then none else lookup r j))
unfolding lookup add remove
lookup-add-remove r h ip j = (
  get-put r.data_map (to_lower h) (to_lower j) ip,
  ground (arith, get-del r.data_map (to_lower h) (to_lower j), same_iff (to_lower h) (to_lower j)),
)

-- The message is newer than what the hostname was stamped with, if it was: its time is later, or it
-- is the same and its node comes later in the order of bytes.
abbrev pub IsNewer : Option RecordMeta → RecordMessage → Type 0
IsNewer none m = Unit
IsNewer (some old) m =
    ((old.timestamp <ℤ m.timestamp) ≡ true)
    ⊎ ((old.timestamp ≡ m.timestamp) × (less old.node_id m.node_id ≡ true))

fresh-IsNewer :
    (old : Option RecordMeta) (m : RecordMessage)
    → (is_stale old m.timestamp m.node_id ≡ false) ↔ IsNewer old m
unfolding is_stale
fresh-IsNewer none m = (λ h. tt, λ h. refl)
fresh-IsNewer (some old) m = (
  λ h. Before-cases old (stamp_of m) h,
  λ h. elim h [
    | inl later ↦ Before-later old (stamp_of m) later
    | inr (tie, node) ↦ Before-tie old (stamp_of m) tie node
  ],
)

-- A newer addition, or a newer removal of what is there.
abbrev pub Accepts : Records → RecordMessage → Type 0
Accepts r m =
    ((m.action ≡ record_action_add) × IsNewer (get_meta r m.hostname) m)
    ⊎ ((m.action ≡ record_action_remove)
        × (is_some (lookup r m.hostname) ≡ true)
        × IsNewer (get_meta r m.hostname) m)

-- The tests of the two methods, in their own order.
apply_message-passes :
    (r : Records) (m : RecordMessage)
    → ((apply_message r m).1 ≡ true) ↔ (
        ((m.action ≡ record_action_add)
          × (is_stale (get_meta r m.hostname) m.timestamp m.node_id ≡ false))
        ⊎ ((m.action ≡ record_action_remove)
            × (is_some (lookup r m.hostname) ≡ true)
            × (is_stale (get_meta r m.hostname) m.timestamp m.node_id ≡ false)))
unfolding apply_message add_with_meta remove_with_meta get_meta lookup
apply_message-passes r m = (λ h. ground arith, λ h. ground arith)

-- `ApplyMessage` returns true exactly for an addition that is newer than the stamp on record, or that
-- finds none, and for a removal of what is on record that is newer than its stamp, or finds none: later
-- in time, or at the same time from a node whose name is later in the order of bytes. Where it returns
-- false, an unknown action included, it changes nothing.
pub apply_message-Accepts :
    (r : Records) (m : RecordMessage)
    → ((apply_message r m).1 ≡ true ↔ Accepts r m)
      × ((apply_message r m).0 ≡ (if (apply_message r m).1 then (apply_message r m).0 else r))
unfolding apply_message add_with_meta remove_with_meta
apply_message-Accepts r m =
    let (passes, passed) = apply_message-passes r m in
    let (newer, fresh) = fresh-IsNewer (get_meta r m.hostname) m in
    (
      (
        λ h. elim (passes h) [
          | inl (adds, f) ↦ inl (adds, newer f)
          | inr (removes, known, f) ↦ inr (removes, known, newer f)
        ],
        λ h. passed (elim h [
          | inl (adds, n) ↦ inl (adds, fresh n)
          | inr (removes, known, n) ↦ inr (removes, known, fresh n)
        ]),
      ),
      ground arith,
    )

-- Applying a message a second time is refused and changes nothing.
apply_message_idem :
    (r : Records) (m : RecordMessage)
    → apply_message (apply_message r m).0 m ≡ ((apply_message r m).0, false)
unfolding apply_message add_with_meta remove_with_meta is_stale
apply_message_idem r m =
    let k = to_lower m.hostname in
    ground (
      arith,
      get-put r.data_map k k m.ip,
      get-put r.meta_map k k (stamp_of m),
      get-del r.data_map k k,
      same_refl k,
      Before-irrefl (stamp_of m),
    )
