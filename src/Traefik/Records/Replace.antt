-- ===== src/Traefik/Records/Replace.antt =====
-- What resolves after a load.
use joyride.Common.{
  Bytes, same, same_iff, to_lower, Option, none, some, [], ◌∷◌, if◌then◌else◌, ◌≡◌, refl, arith, ap,
  ◌∙◌,
}
use joyride.Common.Map.{Map, get, put, IsUnique}
use joyride.Common.Map.Laws.{get-put, get-del, IsUnique-put}
use joyride.Traefik.Records.{Records, add, remove, lookup, normalize, replace_all}

-- The last entry of the list whose key is the hostname but for the case of its letters.
abbrev pub last_entry : Map Bytes → Bytes → Option Bytes → Option Bytes
last_entry [] j otherwise = otherwise
last_entry ((k, v) ∷ rest) j otherwise =
    last_entry rest j (if same (to_lower k) (to_lower j) then some v else otherwise)

get-normalize :
    (m fresh : Map Bytes) (j : Bytes)
    → get (normalize m fresh) (to_lower j) ≡ last_entry fresh j (get m (to_lower j))
unfolding normalize
get-normalize m [] j = refl
get-normalize m ((k, v) ∷ rest) j =
    get-normalize (put m (to_lower k) v) rest j
    ∙ ap (last_entry rest j) (get-put m (to_lower k) (to_lower j) v)

IsUnique-normalize : (m fresh : Map Bytes) → IsUnique m → IsUnique (normalize m fresh)
unfolding normalize
IsUnique-normalize m [] u = u
IsUnique-normalize m ((k, v) ∷ rest) u =
    IsUnique-normalize (put m (to_lower k) v) rest (IsUnique-put m (to_lower k) v u)

-- After `ReplaceAll` a hostname resolves to what the new map has for it, whatever the case of the
-- letters, and not at all if the new map has nothing; nothing of the old records is left, and each
-- key stands once. Of keys that differ in case only, the one that is iterated last counts.
pub lookup-replace_all :
    (r : Records) (fresh : Map Bytes)
    → ((j : Bytes) → lookup (replace_all r fresh) j ≡ last_entry fresh j none)
      × IsUnique (replace_all r fresh).data_map
unfolding lookup replace_all get
lookup-replace_all r fresh = (get-normalize [] fresh, IsUnique-normalize [] fresh tt)

-- After `Add`, `Lookup` finds the address under every spelling of the hostname; after `Remove` it
-- finds none; and both leave every other hostname as it was.
lookup_after_update :
    (r : Records) (h ip j : Bytes)
    → (lookup (add r h ip) j ≡ (if same (to_lower h) (to_lower j) then some ip else lookup r j))
      × (lookup (remove r h) j ≡ (if same (to_lower h) (to_lower j) then none else lookup r j))
unfolding lookup add remove
lookup_after_update r h ip j = (
  get-put r.data_map (to_lower h) (to_lower j) ip,
  ground (arith, get-del r.data_map (to_lower h) (to_lower j), same_iff (to_lower h) (to_lower j)),
)
