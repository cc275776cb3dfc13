-- ===== src/Cluster/Records/Removal.antt =====
-- A removal keeps no stamp, so it does not commute with announcements.
use joyride.Common.{same_refl, to_lower, none, some, List, [], ◌∷◌, ◌≡◌, ap, ◌∙◌, arith}
use joyride.Cluster.Message.{RecordMessage, record_action_add, record_action_remove}
use joyride.Cluster.Records.{Records, is_stale}
use joyride.Cluster.Records.Stamp.{Before}
use joyride.Cluster.Records.Cell.{Cell, cell, cell_step, stamp_of}
use joyride.Cluster.Records.Converge.{apply_all, steps_at, cell-apply_all}

abbrev vacant : Cell
vacant = record { address = none; stamp = none }

-- The cell that an announcement leaves.
abbrev pub announced : RecordMessage → Cell
announced m = record { address = some m.ip; stamp = some (stamp_of m) }

vacant_orders :
    (a m : RecordMessage)
    → a.action ≡ record_action_add
    → m.action ≡ record_action_remove
    → to_lower m.hostname ≡ to_lower a.hostname
    → Before (stamp_of a) (stamp_of m)
    → (steps_at (to_lower a.hostname) vacant (a ∷ m ∷ []) ≡ vacant)
      × (steps_at (to_lower a.hostname) vacant (m ∷ a ∷ []) ≡ announced a)
      × (steps_at (to_lower a.hostname) vacant (a ∷ m ∷ a ∷ []) ≡ announced a)
unfolding steps_at cell_step is_stale
vacant_orders a m adds removes one older =
    let self = same_refl (to_lower a.hostname) in
    (ground (arith, self), ground (arith, self), ground (arith, self))

-- An announcement and a newer removal of one hostname, from a store that has nothing for it: in the
-- order of their stamps they leave nothing; in the other order, and also if the announcement comes
-- once more after both, the older announcement stands.
pub removal_order :
    (r : Records) (a m : RecordMessage)
    → a.action ≡ record_action_add
    → m.action ≡ record_action_remove
    → to_lower m.hostname ≡ to_lower a.hostname
    → Before (stamp_of a) (stamp_of m)
    → cell r (to_lower a.hostname) ≡ record { address = none; stamp = none }
    → (cell (apply_all r (a ∷ m ∷ [])) (to_lower a.hostname)
        ≡ record { address = none; stamp = none })
      × (cell (apply_all r (m ∷ a ∷ [])) (to_lower a.hostname) ≡ announced a)
      × (cell (apply_all r (a ∷ m ∷ a ∷ [])) (to_lower a.hostname) ≡ announced a)
removal_order r a m adds removes one older empty =
    let h = to_lower a.hostname in
    let facts = vacant_orders a m adds removes one older in
    let from_cell =
      λ (ms : List RecordMessage). cell-apply_all r ms h ∙ ap (λ c. steps_at h c ms) empty in
    (
      from_cell (a ∷ m ∷ []) ∙ facts.0,
      from_cell (m ∷ a ∷ []) ∙ facts.1,
      from_cell (a ∷ m ∷ a ∷ []) ∙ facts.2,
    )
