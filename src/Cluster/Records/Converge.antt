-- ===== src/Cluster/Records/Converge.antt =====
-- Stores that saw the same announcements agree, in whatever order they saw them.
use mathlib.Core.List.{Perm, Permᴰ}
use mathlib.Core.Logic.{∥∥₁_elim}
use joyride.Common.{subst, Bytes, List, [], ◌∷◌, ◌≡◌, refl, sym, ◌∙◌, All, ap}
use joyride.Cluster.Message.{RecordMessage}
use joyride.Cluster.Records.{Records, apply_message}
use joyride.Cluster.Records.Cell.{Cell, cell, step_at, cell-apply_message}
use joyride.Cluster.Records.Issued.{Registry, IsIssued, step_at_comm}

-- The messages of a list, one after the other.
unfoldable pub apply_all : Records → List RecordMessage → Records
apply_all r [] = r
apply_all r (m ∷ ms) = apply_all (apply_message r m).0 ms

unfoldable pub steps_at : Bytes → Cell → List RecordMessage → Cell
steps_at h c [] = c
steps_at h c (m ∷ ms) = steps_at h (step_at h c m) ms

pub cell-apply_all :
    (r : Records) (ms : List RecordMessage) (h : Bytes)
    → cell (apply_all r ms) h ≡ steps_at h (cell r h) ms
unfolding apply_all steps_at
cell-apply_all r [] h = refl
cell-apply_all r (m ∷ ms) h =
    cell-apply_all (apply_message r m).0 ms h ∙ ap (λ c. steps_at h c ms) (cell-apply_message r m h)

Cell-set : IsSet Cell
Cell-set = hlevel

module _ (issued : Registry) where
  All-Permᴰ :
      {ms ns : List RecordMessage}
      → Permᴰ ms ns
      → All (IsIssued issued) ms
      → All (IsIssued issued) ns
  All-Permᴰ Permᴰ.nil h = h
  All-Permᴰ (Permᴰ.cons e p) h = (subst (IsIssued issued) e h.0, All-Permᴰ p h.1)
  All-Permᴰ (Permᴰ.swap e f) h =
      (subst (IsIssued issued) f h.1.0, (subst (IsIssued issued) e h.0, h.1.1))
  All-Permᴰ (Permᴰ.trans p q) h = All-Permᴰ q (All-Permᴰ p h)

  steps_at-Permᴰ :
      (h : Bytes) (c : Cell) {ms ns : List RecordMessage}
      → Permᴰ ms ns
      → All (IsIssued issued) ms
      → steps_at h c ms ≡ steps_at h c ns
  unfolding steps_at
  steps_at-Permᴰ h c Permᴰ.nil i = refl
  steps_at-Permᴰ h c (Permᴰ.cons {b} {l₁ = ms} e p) i =
      ap (λ x. steps_at h (step_at h c x) ms) e ∙ steps_at-Permᴰ h (step_at h c b) p i.1
  steps_at-Permᴰ h c (Permᴰ.swap {a} {b} {l} e f) i =
      ap (λ x. steps_at h x l) (step_at_comm issued h c i.0 i.1.0)
      ∙ (λ k. steps_at h (step_at h (step_at h c (f k)) (e k)) l)
  steps_at-Permᴰ h c (Permᴰ.trans p q) i =
      steps_at-Permᴰ h c p i ∙ steps_at-Permᴰ h c q (All-Permᴰ p i)

  -- Any reordering of issued announcements leaves every hostname with the same address and stamp.
  pub apply_all-perm :
      (r : Records) {ms ns : List RecordMessage}
      → All (IsIssued issued) ms
      → Perm ms ns
      → (h : Bytes) → cell (apply_all r ms) h ≡ cell (apply_all r ns) h
  apply_all-perm r {ms} {ns} i p h =
      cell-apply_all r ms h
      ∙ ∥∥₁_elim p (Cell-set _ _) (λ q. steps_at-Permᴰ h (cell r h) q i)
      ∙ sym (cell-apply_all r ns h)
