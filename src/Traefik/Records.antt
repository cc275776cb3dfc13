-- ===== src/Traefik/Records.antt =====
-- plugins/traefik-externals/records.go: the record store, replaced as a whole by each load.
pub mod Replace
use joyride.Common.{
  ℕ, Bytes, to_lower, Bool, true, false, not, Option, none, some, List, [], ◌∷◌, length,
  if◌then◌else◌,
}
use joyride.Common.Map.{Map, get, put, del, has}

pub record Records : Type 0 where
  pub data_map : Map Bytes

unfoldable pub new_records : Records
new_records = record { data_map = [] }

unfoldable pub add : Records → Bytes → Bytes → Records
add r hostname ip =
    let hostname = to_lower hostname in record { data_map = put r.data_map hostname ip }

unfoldable pub remove : Records → Bytes → Records
remove r hostname =
    let hostname = to_lower hostname in
    if not (has r.data_map hostname) then r else record { data_map = del r.data_map hostname }

unfoldable pub lookup : Records → Bytes → Option Bytes
lookup r hostname = get r.data_map (to_lower hostname)

unfoldable pub get_all : Records → Map Bytes
get_all r = r.data_map

unfoldable pub count : Records → ℕ
count r = length r.data_map

-- The loop over `newRecords`, in the order of its iteration.
unfoldable pub normalize : Map Bytes → Map Bytes → Map Bytes
normalize normalized [] = normalized
normalize normalized ((k, v) ∷ rest) = normalize (put normalized (to_lower k) v) rest

unfoldable pub replace_all : Records → Map Bytes → Records
replace_all r fresh = record { data_map = normalize [] fresh }
