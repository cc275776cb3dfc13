-- ===== src/Common/Text.antt =====
-- Go strings as lists of bytes: equality, the order of `<`, `strings.ToLower` on ASCII.
use Prim.Native.Nat.{ℕ, ◌+◌}
use Prim.Native.Char.{code}
use Prim.Native.String.{String}
use mathlib.Core.Path.{◌≡◌, refl}
use mathlib.Core.Logic.{◌↔◌, ◌⊎◌, inl, inr}
use mathlib.Core.Bool.{Bool, true, false, ◌&&◌, ◌||◌}
use mathlib.Core.List.{List, [], ◌∷◌, ◌++◌}
use native.Mathlib.Omega.{arith}
use joyride.Common.Tests.{leb, ltb, ◌==◌, if◌then◌else◌}

abbrev pub Bytes : Type 0
Bytes = List ℕ

-- The bytes of an ASCII text.
abbrev pub codes : String → Bytes
codes String.[] = []
codes (String.◌∷◌ c s) = code c ∷ codes s

-- `a == b` on Go strings.
unfoldable pub same : Bytes → Bytes → Bool
same [] [] = true
same [] (y ∷ ys) = false
same (x ∷ xs) [] = false
same (x ∷ xs) (y ∷ ys) = x == y && same xs ys

pub same_iff : (a b : Bytes) → (same a b ≡ true) ↔ (a ≡ b)
unfolding same
same_iff [] [] = ground arith
same_iff [] (y ∷ ys) = ground arith
same_iff (x ∷ xs) [] = ground arith
same_iff (x ∷ xs) (y ∷ ys) = ground (arith, same_iff xs ys)

pub same_refl : (a : Bytes) → same a a ≡ true
same_refl a = (same_iff a a).1 refl

pub same_sym : (a b : Bytes) → same a b ≡ same b a
same_sym a b = ground (arith, same_iff a b, same_iff b a)

-- `a < b` on Go strings: bytewise, lexicographic.
unfoldable pub less : Bytes → Bytes → Bool
less xs [] = false
less [] (y ∷ ys) = true
less (x ∷ xs) (y ∷ ys) = ltb x y || (x == y && less xs ys)

pub less_irrefl : (a : Bytes) → less a a ≡ false
unfolding less
less_irrefl [] = refl
less_irrefl (x ∷ xs) = ground (arith, less_irrefl xs)

pub less_trans : (a b c : Bytes) → less a b ≡ true → less b c ≡ true → less a c ≡ true
unfolding less
less_trans a b [] p q = q
less_trans a [] (z ∷ zs) p q = ground arith
less_trans [] (y ∷ ys) (z ∷ zs) p q = refl
less_trans (x ∷ xs) (y ∷ ys) (z ∷ zs) p q = ground (arith, less_trans xs ys zs)

pub less_total : (a b : Bytes) → (less a b ≡ true) ⊎ ((a ≡ b) ⊎ (less b a ≡ true))
unfolding less
less_total [] [] = inr (inl refl)
less_total [] (y ∷ ys) = inl refl
less_total (x ∷ xs) [] = inr (inr refl)
less_total (x ∷ xs) (y ∷ ys) = ground (arith, less_total xs ys)

-- One byte of `strings.ToLower`: bytes outside A-Z, those of a multi-byte rune too, stay.
abbrev pub lower_byte : ℕ → ℕ
lower_byte c = if leb b'A' c && leb c b'Z' then c + 32 else c

-- `strings.ToLower` on ASCII text.
unfoldable pub to_lower : Bytes → Bytes
to_lower [] = []
to_lower (c ∷ s) = lower_byte c ∷ to_lower s

lower_byte_idem : (c : ℕ) → lower_byte (lower_byte c) ≡ lower_byte c
lower_byte_idem c = ground arith

pub to_lower_idem : (s : Bytes) → to_lower (to_lower s) ≡ to_lower s
unfolding to_lower
to_lower_idem [] = refl
to_lower_idem (c ∷ s) = cc (lower_byte_idem c, to_lower_idem s)

-- The white space of ASCII: tab, newline, vertical tab, form feed, return, blank.
abbrev pub is_space : ℕ → Bool
is_space c = (leb 9 c && leb c 13) || c == 32

-- `c` before the first piece.
extend_first : ℕ → List Bytes → List Bytes
extend_first c [] = (c ∷ []) ∷ []
extend_first c (p ∷ ps) = (c ∷ p) ∷ ps

-- A blank goes if nothing is left behind it.
drop_blank : ℕ → Bytes → Bytes
drop_blank c [] = if is_space c then [] else c ∷ []
drop_blank c (d ∷ s) = c ∷ d ∷ s

-- `strings.Split` at a separator of one byte.
unfoldable pub split : ℕ → Bytes → List Bytes
unfolding extend_first
split sep [] = [] ∷ []
split sep (c ∷ s) = let rest = split sep s in if c == sep then [] ∷ rest else extend_first c rest

unfoldable pub trim_left : Bytes → Bytes
trim_left [] = []
trim_left (c ∷ s) = let rest = trim_left s in if is_space c then rest else c ∷ s

unfoldable pub trim_right : Bytes → Bytes
unfolding drop_blank
trim_right [] = []
trim_right (c ∷ s) = drop_blank c (trim_right s)

-- `strings.TrimSpace` on ASCII text.
unfoldable pub trim_space : Bytes → Bytes
unfolding trim_left trim_right
trim_space s = trim_right (trim_left s)

-- Is the text in the list, or the key in a `map[string]bool` that was filled with it?
unfoldable pub contains : List Bytes → Bytes → Bool
contains [] a = false
contains (x ∷ xs) a = same x a || contains xs a

pub contains-concat :
    (xs : List Bytes) (x a : Bytes) → contains (xs ++ (x ∷ [])) a ≡ (contains xs a || same x a)
unfolding contains
contains-concat [] x a = ground arith
contains-concat (y ∷ xs) x a = ground (arith, contains-concat xs x a)
