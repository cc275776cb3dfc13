-- ===== src/Cluster/Delegate/Sync.antt =====
-- The full state exchange: what merging a remote state does at each hostname.

use joyride.Common.{
  Bytes, same, same_iff, same_refl, to_lower, true, false, Option, none, some, List, [], ◌∷◌,
  if◌then◌else◌, ◌≡◌, refl, arith, ap, ◌∙◌, Bool-cases, inl, inr, map,
}
use joyride.Common.Map.{Map, get, IsUnique}
use joyride.Cluster.Message.{RecordMessage, RecordEntry}
use joyride.Cluster.Records.{
  RecordMeta, Records, apply_message, with_meta, get_all_with_meta, entry_of,
}
use joyride.Cluster.Records.Cell.{Cell, cell, step_at, cell_step}
use joyride.Cluster.Records.WellFormed.{IsWellFormed, IsLower}
use joyride.Cluster.Records.Converge.{apply_all, steps_at, cell-apply_all}
use joyride.Cluster.Delegate.{entry_message, merge_entries}

abbrev pub messages : Map RecordEntry → List RecordMessage
messages = map (λ e. entry_message e.0 e.1)

pub merge_entries-eq-apply_all :
    (r : Records) (es : Map RecordEntry) → merge_entries r es ≡ apply_all r (messages es)
unfolding merge_entries apply_all
merge_entries-eq-apply_all r [] = refl
merge_entries-eq-apply_all r ((h, e) ∷ es) =
    merge_entries-eq-apply_all (apply_message r (entry_message h e)).0 es

-- An entry for `h`, or none, at the cell of `h`.
abbrev pub pull_entry : Bytes → Cell → Option RecordEntry → Cell
pull_entry h c none = c
pull_entry h c (some e) = cell_step c (entry_message h e)

pub IsLower-tail :
    (k : Bytes) (e : RecordEntry) (es : Map RecordEntry) → IsLower ((k, e) ∷ es) → IsLower es
unfolding get
IsLower-tail k e es l j h = ground (arith, l j)

steps_at-absent :
    (h : Bytes) (c : Cell) (es : Map RecordEntry)
    → IsLower es
    → get es h ≡ none
    → steps_at h c (messages es) ≡ c
unfolding steps_at get
steps_at-absent h c [] l a = refl
steps_at-absent h c ((k, e) ∷ es) l a =
    ground (arith, l k, same_refl k, steps_at-absent h c es (IsLower-tail k e es l))

-- Each key once and in lower case: only the entry of `h` itself acts on `h`.
steps_at-messages :
    (h : Bytes) (c : Cell) (es : Map RecordEntry)
    → IsUnique es
    → IsLower es
    → steps_at h c (messages es) ≡ pull_entry h c (get es h)
unfolding steps_at get
steps_at-messages h c [] u l = refl
steps_at-messages h c ((k, e) ∷ es) (fresh, u) l = elim (Bool-cases (same k h)) [
  | inl p ↦
      let at = (same_iff k h).0 p in
      rw p (
        ap (λ x. steps_at h x (messages es)) (step_at_here p)
        ∙ steps_at-absent h (cell_step c (entry_message h e)) es (IsLower-tail k e es l)
            (rw at at fresh))
  | inr p ↦ rw p (
      ap (λ x. steps_at h x (messages es)) (step_at_away p)
      ∙ steps_at-messages h c es u (IsLower-tail k e es l))
]
  where
    lower : to_lower k ≡ k
    lower = l k (rw (same_refl k))

    step_at_here :
        same k h ≡ true → step_at h c (entry_message k e) ≡ cell_step c (entry_message h e)
    step_at_here p =
        ap (λ x. if same x h then cell_step c (entry_message k e) else c) lower
        ∙ rw p (ap (λ x. cell_step c (entry_message x e)) ((same_iff k h).0 p))

    step_at_away : same k h ≡ false → step_at h c (entry_message k e) ≡ c
    step_at_away p = ap (λ x. if same x h then cell_step c (entry_message k e) else c) lower ∙ rw p

pub get-with_meta :
    (meta : Map RecordMeta) (data_map : Map Bytes) (h : Bytes)
    → get (with_meta meta data_map) h
      ≡ elim (get data_map h) [ none ↦ none | some ip ↦ some (entry_of ip (get meta h)) ]
unfolding with_meta get
get-with_meta meta [] h = refl
get-with_meta meta ((k, ip) ∷ rest) h = ground (arith, same_iff k h, get-with_meta meta rest h)

pub IsUnique-with_meta :
    (meta : Map RecordMeta) (data_map : Map Bytes)
    → IsUnique data_map
    → IsUnique (with_meta meta data_map)
unfolding with_meta
IsUnique-with_meta meta [] u = tt
IsUnique-with_meta meta ((k, ip) ∷ rest) (fresh, u) =
    (ground (arith, get-with_meta meta rest k), IsUnique-with_meta meta rest u)

pub IsLower-with_meta :
    (meta : Map RecordMeta) (data_map : Map Bytes)
    → IsLower data_map
    → IsLower (with_meta meta data_map)
IsLower-with_meta meta data_map l h k = ground (arith, get-with_meta meta data_map h, l h)

-- What `h` has after a merge with the entries of a well-formed store: what it had, and the entry
-- of that store for it, if there is one, by last write wins.
pub cell-merge_entries :
    (r s : Records) (h : Bytes)
    → IsWellFormed s
    → cell (merge_entries r (get_all_with_meta s)) h
      ≡ pull_entry h (cell r h) (get (get_all_with_meta s) h)
unfolding get_all_with_meta
cell-merge_entries r s h w =
    ap (λ x. cell x h) (merge_entries-eq-apply_all r (with_meta s.meta_map s.data_map))
    ∙ cell-apply_all r (messages (with_meta s.meta_map s.data_map)) h
    ∙ steps_at-messages h (cell r h) (with_meta s.meta_map s.data_map)
        (IsUnique-with_meta s.meta_map s.data_map w.data_unique)
        (IsLower-with_meta s.meta_map s.data_map w.data_lower)
