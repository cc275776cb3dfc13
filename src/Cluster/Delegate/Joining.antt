-- ===== src/Cluster/Delegate/Joining.antt =====
-- A node that joins with an empty store: the full state of a peer, sent and merged, is that state.
use joyride.Common.{Bytes, Option, none, some, ◌≡◌, refl, ap, ◌∙◌}
use joyride.Common.Map.{get}
use joyride.Cluster.Records.{RecordMeta, new_records, get_all_with_meta, is_stale}
use joyride.Cluster.Records.Cell.{cell, cell_step}
use joyride.Cluster.Records.Issued.{Registry}
use joyride.Cluster.Records.WellFormed.{IsWellFormed}
use joyride.Cluster.Delegate.{Wire, Delegate, full_state, local_state, merge_remote_state}
use joyride.Cluster.Delegate.Sync.{pull_entry, cell-merge_entries}
use joyride.Cluster.Delegate.PushPull.{
  Held, IsReplicated, Transfers, exported, get_all_with_meta-exported, merge_remote_state-Transfers,
}

-- An entry that comes where there is nothing is taken as it is.
pull_vacant :
    (issued : Registry) (h : Bytes) (x : Option Bytes) (s : Option RecordMeta)
    → Held issued h x s
    → pull_entry h (record { address = none; stamp = none }) (exported x s)
      ≡ record { address = x; stamp = s }
unfolding cell_step is_stale
pull_vacant issued h none none p = refl
pull_vacant issued h (some ip) (some s) p = refl
pull_vacant issued h none (some s) p = absurd p
pull_vacant issued h (some ip) none p = absurd p

vacant : (h : Bytes) → cell new_records h ≡ record { address = none; stamp = none }
unfolding new_records get
vacant h = refl

-- A node with an empty store that merges the full state of a peer has for each hostname the address
-- and the stamp that the peer has, if the peer's store is well formed and holds only what
-- announcements have written, and the codec carries its state.
pub merge_remote_state-local_state :
    {Queue : Type 0} (issued : Registry) (wire : Wire) (fresh peer : Delegate Queue) (h : Bytes)
    → fresh.records ≡ new_records
    → IsWellFormed peer.records
    → IsReplicated issued peer.records
    → Transfers wire (full_state peer)
    → cell (merge_remote_state wire fresh (local_state wire peer)).records h ≡ cell peer.records h
merge_remote_state-local_state issued wire fresh peer h e w p t =
    merge_remote_state-Transfers issued wire fresh peer h w p t
    ∙ cell-merge_entries fresh.records peer.records h w
    ∙ ap (λ r. pull_entry h (cell r h) (get (get_all_with_meta peer.records) h)) e
    ∙ ap (λ c. pull_entry h c (get (get_all_with_meta peer.records) h)) (vacant h)
    ∙ ap (pull_entry h (record { address = none; stamp = none }))
        (get_all_with_meta-exported peer.records h)
    ∙ pull_vacant issued h (cell peer.records h).address (cell peer.records h).stamp (p.held h)
