-- ===== src/Tests/Stores.antt =====
-- plugins/docker-cluster/records.go and plugins/traefik-externals/records.go.
use mathlib.Core.List.{Permᴰ}
use joyride.Common.{
  Bytes, codes, same, less, to_lower, true, none, some, [], ◌∷◌, ◌≡◌, refl, ◌↔◌, if◌then◌else◌,
}
use joyride.Common.Map.{Map, get, put, IsUnique}
use joyride.Cluster.Records.{
  Records, new_records, add, remove, lookup, add_with_meta, apply_message, is_stale, rejects,
}
use joyride.Cluster.Records.Stamp.{Before}
use joyride.Cluster.Records.Cell.{cell, stamp_of}
use joyride.Cluster.Records.Converge.{apply_all, apply_all-perm}
use joyride.Cluster.Records.WellFormed.{
  IsWellFormed, Reach, start, next, applying, Reach-IsWellFormed,
}
use joyride.Cluster.Records.Behaviour.{Accepts, apply_message-Accepts}
use joyride.Cluster.Records.Local.{apply_message_behind_local}
use joyride.Cluster.Records.Removal.{announced, removal_order}
use joyride.Traefik.Records as Traefik
use joyride.Traefik.Records.Replace.{last_entry, lookup-replace_all}
use joyride.Tests.Data.{app_a, app_b, app_gone, app, by_node, app_a-IsIssued, app_b-IsIssued}

abbrev both : Records
both = apply_all new_records (app_a ∷ app_b ∷ [])

-- The newer announcement stands, under the lower-case name.
lookup-both : lookup both (codes "APP.local") ≡ some (codes "10.0.0.2")
unfolding lookup apply_all apply_message add_with_meta is_stale new_records get put same less
    to_lower
lookup-both = refl

both-Reach : Reach both
unfolding apply_all
both-Reach = next (next start (applying app_a)) (applying app_b)

Reach-IsWellFormed_example : IsWellFormed both
Reach-IsWellFormed_example = Reach-IsWellFormed both-Reach

apply_all-perm_example :
    cell (apply_all new_records (app_a ∷ app_b ∷ [])) app
    ≡ cell (apply_all new_records (app_b ∷ app_a ∷ [])) app
apply_all-perm_example =
    apply_all-perm by_node new_records (app_a-IsIssued, (app_b-IsIssued, tt))
      ∣ Permᴰ.swap refl refl ∣₁ app

apply_message-Accepts_example :
    ((apply_message both app_gone).1 ≡ true ↔ Accepts both app_gone)
    × ((apply_message both app_gone).0
        ≡ (if (apply_message both app_gone).1 then (apply_message both app_gone).0 else both))
apply_message-Accepts_example = apply_message-Accepts both app_gone

app_a-older : Before (stamp_of app_a) (stamp_of app_gone)
unfolding rejects less
app_a-older = refl

removal_order_example :
    (cell (apply_all new_records (app_a ∷ app_gone ∷ [])) app
      ≡ record { address = none; stamp = none })
    × (cell (apply_all new_records (app_gone ∷ app_a ∷ [])) app ≡ announced app_a)
    × (cell (apply_all new_records (app_a ∷ app_gone ∷ app_a ∷ [])) app ≡ announced app_a)
unfolding to_lower new_records get
removal_order_example = removal_order new_records app_a app_gone refl refl refl app_a-older refl

abbrev loaded : Map Bytes
loaded = (codes "Web.local", codes "10.0.0.4") ∷ []

lookup-replace_all_example :
    ((j : Bytes)
      → Traefik.lookup (Traefik.replace_all Traefik.new_records loaded) j
        ≡ last_entry loaded j none)
    × IsUnique (Traefik.replace_all Traefik.new_records loaded).data_map
lookup-replace_all_example = lookup-replace_all Traefik.new_records loaded

-- The store knows the announcement of node b, which that of node a does not beat.
abbrev knows_b : Records
knows_b = (apply_message new_records app_b).0

app_a-stale :
    is_stale (get knows_b.meta_map (to_lower app_a.hostname)) app_a.timestamp app_a.node_id ≡ true
unfolding apply_message add_with_meta new_records is_stale rejects to_lower get put same less
app_a-stale = refl

apply_message_behind_local_example :
    (cell (apply_message knows_b app_a).0 (to_lower app_a.hostname)
      ≡ cell knows_b (to_lower app_a.hostname))
    × (cell (apply_message (add knows_b app_a.hostname app_a.ip) app_a).0 (to_lower app_a.hostname)
        ≡ record {
          address = some app_a.ip;
          stamp = get knows_b.meta_map (to_lower app_a.hostname);
        })
    × (cell
          (apply_message (remove knows_b app_gone.hostname) app_gone).0
          (to_lower app_gone.hostname)
        ≡ record { address = none; stamp = get knows_b.meta_map (to_lower app_gone.hostname) })
apply_message_behind_local_example =
    apply_message_behind_local knows_b app_a app_gone refl refl app_a-stale
