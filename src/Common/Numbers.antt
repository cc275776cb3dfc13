-- ===== src/Common/Numbers.antt =====
-- Go's strconv on decimal text.
use joyride.Common.{
  ℕ, ◌+◌, ◌-◌, ◌*◌, ◌^◌, ℤ, pos, negsuc, Bytes, true, ◌&&◌, Option, none, some, [], ◌∷◌, ltb, leb,
  ◌==◌, ◌≡◌, arith, if◌then◌else◌,
}

-- The value of the digits, with `acc` before them.
unfoldable pub digits_value : ℕ → Bytes → Option ℕ
digits_value acc [] = some acc
digits_value acc (c ∷ s) =
    let rest = digits_value (acc * 10 + (c - b'0')) s in
    if leb b'0' c && leb c b'9' then rest else none

-- One digit or more.
unfoldable pub parse_digits : Bytes → Option ℕ
parse_digits [] = none
parse_digits (c ∷ s) = digits_value 0 (c ∷ s)

-- `strconv.ParseUint(s, 10, 32)`, `none` for an error.
unfoldable pub parse_uint32 : Bytes → Option ℕ
parse_uint32 s = elim (parse_digits s) [
  | none ↦ none
  | some n ↦ if ltb n (2 ^ 32) then some n else none
]

abbrev pub negated : ℕ → ℤ
negated n = if n == 0 then pos 0 else negsuc (n - 1)

unfoldable pub positive : Bytes → Option ℤ
positive s = elim (parse_digits s) [
  | none ↦ none
  | some n ↦ if ltb n (2 ^ 63) then some (pos n) else none
]

unfoldable pub negative : Bytes → Option ℤ
negative s = elim (parse_digits s) [
  | none ↦ none
  | some n ↦ if leb n (2 ^ 63) then some (negated n) else none
]

-- `strconv.Atoi` where int has 64 bits, `none` for an error.
unfoldable pub atoi : Bytes → Option ℤ
atoi [] = none
atoi (c ∷ s) = if c == b'-' then negative s else if c == b'+' then positive s else positive (c ∷ s)

pub parse_uint32_bound : (s : Bytes) (n : ℕ) → parse_uint32 s ≡ some n → ltb n (2 ^ 32) ≡ true
unfolding parse_uint32
parse_uint32_bound s n h = ground arith
