-- ===== src/Traefik/Env/Loaded.antt =====
-- plugins/traefik-externals/parser.go: the environment that a parser caches.
use joyride.Common.{
  Bytes, same, Bool, true, false, not, ◌&&◌, Option, none, some, List, [], ◌∷◌, ◌++◌, ◌==◌, map,
  All, if◌then◌else◌, ◌≡◌, refl, ap, ◌∙◌, arith,
}
use joyride.Common.Map.{Map, get, put}
use joyride.Common.Map.Laws.{get-put}

-- `strings.SplitN(env, "=", 2)`, none unless it gives two parts.
unfoldable pub split_two : Bytes → Option (Bytes × Bytes)
split_two [] = none
split_two (c ∷ s) = elim (c == b'=') [
  | true ↦ some ([], s)
  | false ↦ elim (split_two s) [ none ↦ none | some (key, value) ↦ some (c ∷ key, value) ]
]

abbrev pub load_one : Map Bytes → Option (Bytes × Bytes) → Map Bytes
load_one vars none = vars
load_one vars (some (key, value)) = put vars key value

-- The loop over `os.Environ()`.
unfoldable pub load_onto : Map Bytes → List Bytes → Map Bytes
load_onto vars [] = vars
load_onto vars (env ∷ envs) = load_onto (load_one vars (split_two env)) envs

unfoldable pub load_env_vars : List Bytes → Map Bytes
load_env_vars envs = load_onto [] envs

unfoldable pub get_env_var : Map Bytes → Bytes → Option Bytes
get_env_var vars key = get vars key

-- A name and its value as the environment has them.
abbrev pub assignment : Bytes × Bytes → Bytes
assignment (key, value) = key ++ (b'=' ∷ value)

abbrev pub is_name : Bytes → Bool
is_name [] = true
is_name (c ∷ s) = not (c == b'=') && is_name s

-- The value of the last assignment to the name.
abbrev pub last_value : List (Bytes × Bytes) → Bytes → Option Bytes → Option Bytes
last_value [] key otherwise = otherwise
last_value ((k, v) ∷ es) key otherwise =
    last_value es key (if same k key then some v else otherwise)

split_two-assignment :
    (key value : Bytes)
    → is_name key ≡ true
    → split_two (assignment (key, value)) ≡ some (key, value)
unfolding split_two
split_two-assignment [] value h = refl
split_two-assignment (c ∷ key) value h = ground (arith, h, split_two-assignment key value)

load_onto-assignments :
    (vars : Map Bytes) (es : List (Bytes × Bytes)) (key : Bytes)
    → All (λ e. is_name e.0 ≡ true) es
    → get (load_onto vars (map assignment es)) key ≡ last_value es key (get vars key)
unfolding load_onto
load_onto-assignments vars [] key names = refl
load_onto-assignments vars ((k, v) ∷ es) key (name, names) =
    ap (λ x. get (load_onto (load_one vars x) (map assignment es)) key)
      (split_two-assignment k v name)
    ∙ load_onto-assignments (put vars k v) es key names
    ∙ ap (last_value es key) (get-put vars k key v)

-- In an environment of assignments, a parser knows for each name the value of the last assignment to
-- it, with what is behind a second equals sign, and nothing for a name that has none.
pub get_env_var-load_env_vars :
    (es : List (Bytes × Bytes)) (key : Bytes)
    → All (λ e. is_name e.0 ≡ true) es
    → get_env_var (load_env_vars (map assignment es)) key ≡ last_value es key none
unfolding get_env_var load_env_vars get
get_env_var-load_env_vars es key names = load_onto-assignments [] es key names
