-- ===== src/Traefik/Env.antt =====
-- plugins/traefik-externals/parser.go: templates with environment variables.
pub mod Pieces
pub mod Resolve
pub mod Loaded
use joyride.Common.{
  ℕ, zero, suc, ◌+◌, ◌-◌, Bytes, take, codes, same, Bool, true, false, ◌||◌, Option, none, some,
  List, [], ◌∷◌, ◌++◌, length, ◌==◌, if◌then◌else◌, leb, ◌&&◌,
}
use joyride.Common.Map.{Map, get}
use joyride.Traefik.Pattern.{after_prefix, until, non_empty, find_all}

-- `\s` of the regular expression: tab, newline, form feed, return, blank.
abbrev pub is_blank : ℕ → Bool
is_blank c = c == 9 || c == 10 || c == 12 || c == 13 || c == 32

-- One blank or more, and what is behind all of them; `some_seen` says that one was there.
unfoldable pub after_blanks : Bool → Bytes → Option Bytes
after_blanks some_seen [] = none
after_blanks some_seen (c ∷ s) =
    let rest = after_blanks true s in
    if is_blank c then rest else if some_seen then some (c ∷ s) else none

-- A reference to a variable: the text of the whole match, and the key.
pub record Reference : Type 0 where
  pub text : Bytes
  pub key : Bytes

-- The rest of a match behind its opening quote: the key, and what is behind the match.
unfoldable pub closed_key : Bytes → Option (Bytes × Bytes)
closed_key s = elim (non_empty (until b'"' s)) [
  | none ↦ none
  | some key ↦ elim (after_prefix (key ++ codes "\"}}") s) [
    | none ↦ none
    | some rest ↦ some (key, rest)
  ]
]

abbrev pub reference_of : Bytes → Option (Bytes × Bytes) → Option Reference
reference_of s none = none
reference_of s (some (key, rest)) =
    some (record { text = take (length s - length rest) s; key = key })

-- \{\{env\s+"([^"]+)"\}\} at the beginning of the text.
unfoldable pub match_reference : Bytes → Option Reference
match_reference s = elim (after_prefix (codes "{{env") s) [
  | none ↦ none
  | some blanks ↦ elim (after_blanks false blanks) [
    | none ↦ none
    | some quoted ↦ elim (after_prefix (codes "\"") quoted) [
      | none ↦ none
      | some rest ↦ reference_of s (closed_key rest)
    ]
  ]
]

-- `FindAllStringSubmatch`; `skip` bytes still belong to the last match.
unfoldable pub references : ℕ → Bytes → List Reference
references skip [] = []
references (suc n) (c ∷ s) = references n s
references zero (c ∷ s) = elim (match_reference (c ∷ s)) [
  | none ↦ references zero s
  | some r ↦ r ∷ references (length r.text - 1) s
]

-- `strings.Replace` of the first `old`, which is not empty.
unfoldable pub replace_first : Bytes → Bytes → Bytes → Bytes
replace_first old new [] = []
replace_first old new (c ∷ s) = elim (after_prefix old (c ∷ s)) [
  | none ↦ c ∷ replace_first old new s
  | some rest ↦ new ++ rest
]

-- The loop over the matches.
unfoldable pub resolve_references : Map Bytes → List Reference → Bytes → Bytes
resolve_references env [] result = result
resolve_references env (r ∷ rs) result = elim (get env r.key) [
  | none ↦ []
  | some value ↦ elim (same value []) [
    | true ↦ []
    | false ↦ resolve_references env rs (replace_first r.text value result)
  ]
]

unfoldable pub resolve_env_template : Map Bytes → Bytes → Bytes
resolve_env_template env template = resolve_references env (references 0 template) template
