-- ===== src/Cluster/Records/Newest.antt =====
-- The newest announcement of a hostname is the one that the store ends with.
use joyride.Common.{Bytes, same, to_lower, true, some, List, [], ◌∷◌, ◌≡◌, ◌⊎◌}
use joyride.Cluster.Message.{RecordMessage, record_action_add}
use joyride.Cluster.Records.{Records, is_stale}
use joyride.Cluster.Records.Cell.{Cell, stamp_of}

abbrev pub IsAdd : RecordMessage → Type 0
IsAdd m = m.action ≡ record_action_add

-- `h` holds a stamp that `m` is not newer than, if `m` is about `h`.
abbrev pub Covers : Bytes → Cell → RecordMessage → Type 0
Covers h c m = same (to_lower m.hostname) h ≡ true → is_stale c.stamp m.timestamp m.node_id ≡ true

-- The cell is what one of the messages about `h` says.
abbrev pub FromOne : Bytes → Cell → List RecordMessage → Type 0
FromOne h c [] = ⊥
FromOne h c (m ∷ ms) =
    ((same (to_lower m.hostname) h ≡ true)
      × (c ≡ record { address = some m.ip; stamp = some (stamp_of m) }))
    ⊎ FromOne h c ms
