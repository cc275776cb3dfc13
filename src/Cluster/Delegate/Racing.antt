-- ===== src/Cluster/Delegate/Racing.antt =====
-- plugins/docker-cluster/records.go, GetAllWithMeta while a writer is at work: it takes no lock, and
-- loads the addresses before the stamps; a WithMeta method stores the addresses before the stamps.
pub mod Torn
use joyride.Common.{
  Bytes, same, same_refl, to_lower, ap, true, false, Option, none, some, ◌≡◌, refl, ◌∙◌, sym, arith,
}
use joyride.Common.Map.{Map, get}
use joyride.Common.Map.Laws.{get-put, get-del}
use joyride.Cluster.Message.{RecordMessage, RecordEntry, record_action_add}
use joyride.Cluster.Records.{
  RecordMeta, Records, add, remove, is_stale, apply_message, with_meta, get_all_with_meta,
}
use joyride.Cluster.Records.Cell.{cell, stamp_of, cell_step, step_at, cell-apply_message}
use joyride.Cluster.Records.Issued.{rejected_self}
use joyride.Cluster.Records.WellFormed.{IsWellFormed, apply_message-IsWellFormed}
use joyride.Cluster.Delegate.{merge_entries}
use joyride.Cluster.Delegate.Sync.{get-with_meta, cell-merge_entries}

-- The store with nobody in a WithMeta method, or between the two Stores of one: the hostname that it
-- writes, what can be loaded, and the stamps that it will store.
pub data Store : Type 0 where
  idle : Records → Store
  between : Bytes → Records → Map RecordMeta → Store

abbrev pub shared : Store → Records
shared (idle r) = r
shared (between key r meta) = r

-- The store after the first of the two Stores. One that refuses its message stores what is there.
abbrev pub halfway : Records → RecordMessage → Store
halfway r m =
    let after = (apply_message r m).0 in
    between (to_lower m.hostname) (record r { data_map = after.data_map }) after.meta_map

-- One `Store` of a writer, by the hostname that is written.
pub data Step : Bytes → Store → Store → Type 0 where
  stores_data :
      (r : Records) (m : RecordMessage) → Step (to_lower m.hostname) (idle r) (halfway r m)
  stores_meta :
      (key : Bytes) (r : Records) (meta : Map RecordMeta)
      → Step key (between key r meta) (idle (record r { meta_map = meta }))
  adds : (r : Records) (h ip : Bytes) → Step (to_lower h) (idle r) (idle (add r h ip))
  removes : (r : Records) (h : Bytes) → Step (to_lower h) (idle r) (idle (remove r h))

-- What is stored in the meantime, with nothing about `h`.
pub data Run (h : Bytes) : Store → Store → Type 0 where
  nothing : {s : Store} → Run h s s
  more : {key : Bytes} {s t u : Store} → Run h s t → Step key t u → same key h ≡ false → Run h s u

-- GetAllWithMeta that loads the addresses from one store and the stamps from a later one.
unfoldable pub read_entries : Store → Store → Map RecordEntry
read_entries s t = with_meta (shared t).meta_map (shared s).data_map

-- A pending write is not about `h`.
abbrev pub Spares : Bytes → Store → Type 0
Spares h (idle r) = Unit
Spares h (between key r meta) = get meta h ≡ get r.meta_map h

record Keeps (h : Bytes) (s t : Store) : Type 0 where
  address : get (shared t).data_map h ≡ get (shared s).data_map h
  stamp : get (shared t).meta_map h ≡ get (shared s).meta_map h
  spares : Spares h t

apply_message-other :
    (r : Records) (m : RecordMessage) (h : Bytes)
    → same (to_lower m.hostname) h ≡ false
    → cell (apply_message r m).0 h ≡ cell r h
apply_message-other r m h other = cell-apply_message r m h ∙ ground (arith, other)

Keeps-Step :
    (h key : Bytes) (t u : Store) → Step key t u → same key h ≡ false → Spares h t → Keeps h t u
unfolding add remove
Keeps-Step h key t u (stores_data r m) other sp = record {
  address = ap (λ c. c.address) (apply_message-other r m h other);
  stamp = refl;
  spares = ap (λ c. c.stamp) (apply_message-other r m h other);
}
Keeps-Step h key t u (stores_meta k r meta) other sp = record {
  address = refl;
  stamp = sp;
  spares = tt;
}
Keeps-Step h key t u (adds r n ip) other sp = record {
  address = ground (arith, get-put r.data_map (to_lower n) h ip, other);
  stamp = refl;
  spares = tt;
}
Keeps-Step h key t u (removes r n) other sp = record {
  address = ground (arith, get-del r.data_map (to_lower n) h, other);
  stamp = ground arith;
  spares = tt;
}

Keeps-Run : (h : Bytes) {s t : Store} → Run h s t → Spares h s → Keeps h s t
Keeps-Run h nothing sp = record { address = refl; stamp = refl; spares = sp }
Keeps-Run h (more {key} {s} {t} {u} run step other) sp =
    let before = Keeps-Run h run sp in
    let last = Keeps-Step h key t u step other before.spares in
    record {
      address = last.address ∙ before.address;
      stamp = last.stamp ∙ before.stamp;
      spares = last.spares;
    }

-- Two stores that hold the same for a hostname: the entry that is read is the entry of each.
same_entry :
    (h : Bytes) (s t : Store)
    → Keeps h s t
    → (get (read_entries s t) h ≡ get (get_all_with_meta (shared s)) h)
      × (get (read_entries s t) h ≡ get (get_all_with_meta (shared t)) h)
unfolding read_entries get_all_with_meta
same_entry h s t k = (
  get-with_meta (shared t).meta_map (shared s).data_map h
      ∙ ground (arith, k.stamp, get-with_meta (shared s).meta_map (shared s).data_map h),
  get-with_meta (shared t).meta_map (shared s).data_map h
      ∙ ground (arith, k.address, get-with_meta (shared t).meta_map (shared t).data_map h),
)

-- If nothing is stored about a hostname while GetAllWithMeta runs, and a write that it finds halfway
-- is about another one, then the entry that it returns for the hostname is the one of the store as
-- it was before and of the store as it is after, whatever is stored about other hostnames.
pub read_entries-whole :
    (h : Bytes) (s t : Store)
    → Run h s t
    → Spares h s
    → (get (read_entries s t) h ≡ get (get_all_with_meta (shared s)) h)
      × (get (read_entries s t) h ≡ get (get_all_with_meta (shared t)) h)
read_entries-whole h s t run sp = same_entry h s t (Keeps-Run h run sp)
