-- ===== src/Common/Distinct.antt =====
-- Lists of texts without repetition.
use joyride.Common.{
  Bytes, same_iff, contains, contains-concat, false, List, [], ◌∷◌, ◌++◌, ◌≡◌, refl, arith,
}

-- No text stands twice.
abbrev pub IsDistinct : List Bytes → Type 0
IsDistinct [] = Unit
IsDistinct (x ∷ xs) = (contains xs x ≡ false) × IsDistinct xs

pub IsDistinct-concat :
    (xs : List Bytes) (x : Bytes)
    → IsDistinct xs
    → contains xs x ≡ false
    → IsDistinct (xs ++ (x ∷ []))
unfolding contains
IsDistinct-concat [] x d n = (refl, tt)
IsDistinct-concat (y ∷ xs) x (f, d) n = (
  ground (arith, contains-concat xs x y, same_iff x y, same_iff y x),
  IsDistinct-concat xs x d (ground arith),
)
