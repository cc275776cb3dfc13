-- ===== src/Cluster/Delegate/PushPull.antt =====
-- Two nodes that exchange their full states agree afterwards.
use mathlib.Core.List.{Perm}
use mathlib.Core.List.Perm
use joyride.Common.{
  Bytes, same, same_refl, same_iff, to_lower, Option, none, some, [], ◌∷◌, length, ◌≡◌, ◌≢◌, refl,
  arith, ap, ◌∙◌, sym, subst, Bool-cases, inl, inr, All,
}
use joyride.Common.Map.{Map, get, IsUnique}
use joyride.Cluster.Message.{RecordMessage, RecordEntry, FullState}
use joyride.Cluster.Records.{
  RecordMeta, Records, new_records, apply_message, with_meta, get_all_with_meta, entry_of, is_stale,
}
use joyride.Cluster.Records.Cell.{Cell, cell, step_at, cell_step, stamp_of, cell-apply_message}
use joyride.Cluster.Records.Issued.{Registry, IsIssued, cell_step_adds, rejects-cases}
use joyride.Cluster.Records.WellFormed.{IsWellFormed, IsLower}
use joyride.Cluster.Records.Converge.{apply_all-perm}
use joyride.Cluster.Delegate.{
  Wire, Delegate, entry_message, merge_entries, full_state, local_state, merge_remote_state,
}
use joyride.Cluster.Delegate.Sync.{
  IsLower-tail, IsUnique-with_meta, IsLower-with_meta, messages, pull_entry, get-with_meta,
  cell-merge_entries, merge_entries-eq-apply_all,
}

-- An address and a stamp, or neither; and the address is the one that the stamp stands for.
abbrev pub Held : Registry → Bytes → Option Bytes → Option RecordMeta → Type 0
Held issued h none none = Unit
Held issued h (some ip) (some s) = ip ≡ issued h s
Held issued h none (some s) = ⊥
Held issued h (some ip) none = ⊥

-- A store that only announcements have written.
pub record IsReplicated (issued : Registry) (r : Records) : Type 0 where
  pub held : (h : Bytes) → Held issued h (cell r h).address (cell r h).stamp

-- An announcement that says what its stamp stands for keeps a store so.
pub apply_message-IsReplicated :
    (issued : Registry) (r : Records) (m : RecordMessage)
    → IsIssued issued m
    → IsReplicated issued r
    → IsReplicated issued (apply_message r m).0
apply_message-IsReplicated issued r m i p = record {
  held = λ h. subst (HeldCell h) (sym (cell-apply_message r m h)) (step h (cell r h) (p.held h));
}
  where
    HeldCell : Bytes → Cell → Type 0
    HeldCell h c = Held issued h c.address c.stamp

    step : (h : Bytes) (c : Cell) → Held issued h c.address c.stamp → HeldCell h (step_at h c m)
    step h c k = elim (Bool-cases (same (to_lower m.hostname) h)) [
      | inl e ↦
          rw (e, cell_step_adds c m i.adds)
            (elim (Bool-cases (is_stale c.stamp m.timestamp m.node_id)) [
              | inl f ↦ rw f k
              | inr f ↦ rw f (i.address ∙ ap (λ x. issued x (stamp_of m)) ((same_iff _ h).0 e))
            ])
      | inr e ↦ rw e k
    ]

pub new_records-IsReplicated : (issued : Registry) → IsReplicated issued new_records
unfolding new_records get
new_records-IsReplicated issued = record { held = λ h. tt }

abbrev pub exported : Option Bytes → Option RecordMeta → Option RecordEntry
exported none s = none
exported (some ip) s = some (entry_of ip s)

pub get_all_with_meta-exported :
    (r : Records) (h : Bytes)
    → get (get_all_with_meta r) h ≡ exported (cell r h).address (cell r h).stamp
unfolding get_all_with_meta
get_all_with_meta-exported r h = ground (arith, get-with_meta r.meta_map r.data_map h)

module _ (issued : Registry) (h : Bytes) where
  pull_comm_some :
      (x y : Bytes) (s t : RecordMeta)
      → x ≡ issued h s
      → y ≡ issued h t
      → pull_entry h (record { address = some x; stamp = some s }) (some (entry_of y (some t)))
        ≡ pull_entry h (record { address = some y; stamp = some t }) (some (entry_of x (some s)))
  unfolding cell_step is_stale
  pull_comm_some x y s t p q = elim (rejects-cases s t) [
    | inl (a, b) ↦ rw (a, b)
    | inr (inl (a, b)) ↦ rw (a, b)
    | inr (inr (e, a, b)) ↦
        rw (a, b)
          (λ i. record { address = some ((p ∙ ap (issued h) e ∙ sym q) i); stamp = some (e i) })
  ]

  pull_comm :
      (x y : Option Bytes) (s t : Option RecordMeta)
      → Held issued h x s
      → Held issued h y t
      → pull_entry h (record { address = x; stamp = s }) (exported y t)
        ≡ pull_entry h (record { address = y; stamp = t }) (exported x s)
  unfolding cell_step is_stale
  pull_comm none none none none p q = refl
  pull_comm none (some y) none (some t) p q = refl
  pull_comm (some x) none (some s) none p q = refl
  pull_comm (some x) (some y) (some s) (some t) p q = pull_comm_some x y s t p q
  pull_comm none y (some s) t p q = absurd p
  pull_comm (some x) y none t p q = absurd p
  pull_comm none none none (some t) p q = absurd q
  pull_comm none (some y) none none p q = absurd q
  pull_comm (some x) none (some s) (some t) p q = absurd q
  pull_comm (some x) (some y) (some s) none p q = absurd q

  pull_cell :
      (r s : Records)
      → IsReplicated issued r
      → IsReplicated issued s
      → IsWellFormed r
      → IsWellFormed s
      → cell (merge_entries r (get_all_with_meta s)) h
        ≡ cell (merge_entries s (get_all_with_meta r)) h
  pull_cell r s p q u v =
      cell-merge_entries r s h v
      ∙ ap (pull_entry h (cell r h)) (get_all_with_meta-exported s h)
      ∙ pull_comm (cell r h).address (cell s h).address (cell r h).stamp (cell s h).stamp (p.held h)
          (q.held h)
      ∙ sym (ap (pull_entry h (cell s h)) (get_all_with_meta-exported r h))
      ∙ sym (cell-merge_entries s r h u)

-- What the codec does to one state: it comes back with the same entries, in some order.
pub record Transfers (wire : Wire) (s : FullState) : Type 0 where
  pub buf : Bytes
  pub state : FullState
  pub encodes : wire.encode_full_state s ≡ some buf
  pub not_empty : length buf ≢ 0
  pub decodes : wire.decode_full_state buf ≡ some state
  pub entries : Perm s.records state.records

entries-IsIssued :
    (issued : Registry) (es : Map RecordEntry)
    → IsUnique es
    → IsLower es
    → ((h : Bytes) (e : RecordEntry)
        → get es h ≡ some e
        → e.ip ≡ issued h (stamp_of (entry_message h e)))
    → All (IsIssued issued) (messages es)
unfolding get
entries-IsIssued issued [] u l f = tt
entries-IsIssued issued ((k, e) ∷ es) (fresh, u) l f = (
  record { adds = refl; address = rw (l k (rw (same_refl k))) (f k e (rw (same_refl k))) },
  entries-IsIssued issued es u (IsLower-tail k e es l)
      λ h x p. f h x (ground (arith, same_iff k h)),
)

state-IsIssued :
    (issued : Registry) (r : Records)
    → IsWellFormed r
    → IsReplicated issued r
    → All (IsIssued issued) (messages (get_all_with_meta r))
unfolding get_all_with_meta
state-IsIssued issued r w p =
    entries-IsIssued issued (with_meta r.meta_map r.data_map)
      (IsUnique-with_meta r.meta_map r.data_map w.data_unique)
      (IsLower-with_meta r.meta_map r.data_map w.data_lower)
      (λ h e q.
        address (cell r h).address (cell r h).stamp h e (p.held h)
          (sym (get_all_with_meta-exported' h) ∙ q))
  where
    get_all_with_meta-exported' :
        (h : Bytes)
        → get (with_meta r.meta_map r.data_map) h ≡ exported (cell r h).address (cell r h).stamp
    get_all_with_meta-exported' h = get_all_with_meta-exported r h

    address :
        (x : Option Bytes) (s : Option RecordMeta) (h : Bytes) (e : RecordEntry)
        → Held issued h x s
        → exported x s ≡ some e
        → e.ip ≡ issued h (stamp_of (entry_message h e))
    address none s h e p q = cc
    address (some x) none h e p q = absurd p
    address (some x) (some s) h e p q = cc

-- The order in which a merge goes through the entries does not matter.
merge_entries-perm :
    (issued : Registry) (r : Records) (h : Bytes) {es fs : Map RecordEntry}
    → All (IsIssued issued) (messages es)
    → Perm es fs
    → cell (merge_entries r fs) h ≡ cell (merge_entries r es) h
merge_entries-perm issued r h {es} {fs} i p =
    ap (λ x. cell x h) (merge_entries-eq-apply_all r fs)
    ∙ sym (apply_all-perm issued r i (Perm.map (λ e. entry_message e.0 e.1) p) h)
    ∙ sym (ap (λ x. cell x h) (merge_entries-eq-apply_all r es))

local_state-eq :
    {Queue : Type 0} (wire : Wire) (d : Delegate Queue) (t : Transfers wire (full_state d))
    → local_state wire d ≡ t.buf
unfolding local_state
local_state-eq wire d t = rw (t.encodes, local_state)

merge_remote_state-eq :
    {Queue : Type 0} (wire : Wire) (d : Delegate Queue) {s : FullState} (t : Transfers wire s)
    → merge_remote_state wire d t.buf
      ≡ record d { records = merge_entries d.records t.state.records }
unfolding merge_remote_state
merge_remote_state-eq wire d t = rw t.decodes (ground (arith, t.not_empty))

-- The merge of a state that has been through the codec.
pub merge_remote_state-Transfers :
    {Queue : Type 0} (issued : Registry) (wire : Wire) (d e : Delegate Queue) (h : Bytes)
    → IsWellFormed e.records
    → IsReplicated issued e.records
    → Transfers wire (full_state e)
    → cell (merge_remote_state wire d (local_state wire e)).records h
      ≡ cell (merge_entries d.records (get_all_with_meta e.records)) h
merge_remote_state-Transfers issued wire d e h w p t =
    ap (λ b. cell (merge_remote_state wire d b).records h) (local_state-eq wire e t)
    ∙ ap (λ x. cell x.records h) (merge_remote_state-eq wire d t)
    ∙ merge_entries-perm issued d.records h (state-IsIssued issued e.records w p) t.entries

-- The full state exchange makes two nodes agree: after each has merged the state that the other
-- sent, every hostname has one address and one stamp on both, if both stores are well formed, hold
-- only what announcements have written, and the codec carries both states.
pub push_pull_agree :
    {Queue : Type 0} (issued : Registry) (wire : Wire) (d e : Delegate Queue) (h : Bytes)
    → IsWellFormed d.records
    → IsWellFormed e.records
    → IsReplicated issued d.records
    → IsReplicated issued e.records
    → Transfers wire (full_state d)
    → Transfers wire (full_state e)
    → cell (merge_remote_state wire d (local_state wire e)).records h
      ≡ cell (merge_remote_state wire e (local_state wire d)).records h
push_pull_agree issued wire d e h u v p q s t =
    merge_remote_state-Transfers issued wire d e h v q t
    ∙ pull_cell issued h d.records e.records p q u v
    ∙ sym (merge_remote_state-Transfers issued wire e d h u p s)
