-- ===== src/Traefik/Pattern.antt =====
-- plugins/traefik-externals/parser.go: matchers for its regular expressions, each a literal, a group
-- of bytes that are not the closing byte, and that byte.
use joyride.Common.{
  ℕ, zero, suc, ◌+◌, Bytes, Option, none, some, List, [], ◌∷◌, length, ◌==◌, if◌then◌else◌,
}

-- What is left of a text behind a prefix.
unfoldable pub after_prefix : Bytes → Bytes → Option Bytes
after_prefix [] s = some s
after_prefix (p ∷ ps) [] = none
after_prefix (p ∷ ps) (c ∷ s) = let rest = after_prefix ps s in if p == c then rest else none

abbrev pub prepend : ℕ → Option Bytes → Option Bytes
prepend c none = none
prepend c (some s) = some (c ∷ s)

-- What stands before the first `close`, if there is one.
unfoldable pub until : ℕ → Bytes → Option Bytes
until close [] = none
until close (c ∷ s) = let rest = until close s in if c == close then some [] else prepend c rest

abbrev pub non_empty : Option Bytes → Option Bytes
non_empty none = none
non_empty (some []) = none
non_empty (some (c ∷ s)) = some (c ∷ s)

-- A match of the literal, a group of one byte or more that is not `close`, and `close`, at the
-- beginning of the text: the group.
unfoldable pub match_group : Bytes → ℕ → Bytes → Option Bytes
match_group literal close s = elim (after_prefix literal s) [
  | none ↦ none
  | some rest ↦ non_empty (until close rest)
]

-- `FindAllStringSubmatch`: the groups of the matches from left to right, each looked for behind the
-- one before; `skip` bytes still belong to the last match.
unfoldable pub find_all : Bytes → ℕ → ℕ → Bytes → List Bytes
find_all literal close skip [] = []
find_all literal close (suc n) (c ∷ s) = find_all literal close n s
find_all literal close zero (c ∷ s) = elim (match_group literal close (c ∷ s)) [
  | none ↦ find_all literal close zero s
  | some group ↦ group ∷ find_all literal close (length literal + length group) s
]
