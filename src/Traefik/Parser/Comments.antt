-- ===== src/Traefik/Parser/Comments.antt =====
-- A line without its comment.
use joyride.Common.{
  ℕ, suc, ◌+◌, Bytes, Bool, true, false, not, ◌&&◌, none, some, [], ◌∷◌, ◌++◌, take, ◌==◌, ◌≡◌, inl,
  inr, refl, sym, ap, ◌∙◌, arith, Bool-cases, Option-cases,
}
use joyride.Traefik.Parser.{comment_index, strip_line}

-- The text is empty, or begins with the comment sign.
abbrev pub IsComment : Bytes → Type 0
IsComment [] = Unit
IsComment (c ∷ s) = c ≡ b'#'

-- The line before its comment, as one recursion.
before_comment : Bool → Bytes → Bytes
before_comment in_backtick [] = []
before_comment in_backtick (c ∷ s) = elim (c == b'`') [
  | true ↦ c ∷ before_comment (not in_backtick) s
  | false ↦ elim (c == b'#' && not in_backtick) [
    | true ↦ []
    | false ↦ c ∷ before_comment in_backtick s
  ]
]

no_comment : (b : Bool) (i : ℕ) (s : Bytes) → comment_index b i s ≡ none → before_comment b s ≡ s
unfolding comment_index before_comment
no_comment b i [] h = refl
no_comment b i (c ∷ s) h = ground (arith, no_comment (not b) (suc i) s, no_comment b (suc i) s)

-- The index is where the comment begins.
record CutAt (b : Bool) (i j : ℕ) (s : Bytes) : Type 0 where
  k : ℕ
  at_k : j ≡ i + k
  before : take k s ≡ before_comment b s

cons-CutAt :
    (b d : Bool) (i j c : ℕ) (s : Bytes)
    → CutAt d (suc i) j s
    → c ∷ before_comment d s ≡ before_comment b (c ∷ s)
    → CutAt b i j (c ∷ s)
cons-CutAt b d i j c s r e = record {
  k = suc r.k;
  at_k = omega (arith, r.at_k);
  before = cc (r.before, e);
}

cut_at : (b : Bool) (i j : ℕ) (s : Bytes) → comment_index b i s ≡ some j → CutAt b i j s
unfolding comment_index before_comment
cut_at b i j [] h = cc
cut_at b i j (c ∷ s) h = elim (Bool-cases (c == b'`')) [
  | inl e ↦
      cons-CutAt b (not b) i j c s (cut_at (not b) (suc i) j s (rw (e, comment_index) at h))
        (rw (e, before_comment) refl)
  | inr e ↦ elim (Bool-cases (c == b'#' && not b)) [
    | inl f ↦ record { k = 0; at_k = ground arith; before = rw (e, f, before_comment) refl }
    | inr f ↦
        cons-CutAt b b i j c s (cut_at b (suc i) j s (rw (e, f, comment_index) at h))
          (rw (e, f, before_comment) refl)
  ]
]

strip_line-before_comment : (s : Bytes) → strip_line s ≡ before_comment false s
unfolding strip_line
strip_line-before_comment s = elim (Option-cases (comment_index false 0 s)) [
  | inl e ↦ rw (e, strip_line) (sym (no_comment false 0 s e))
  | inr (j, e) ↦
      let r = cut_at false 0 j s e in
      let j_is_k : j ≡ r.k = omega (arith, r.at_k) in
      rw (e, strip_line) (ap (λ n. take n s) j_is_k ∙ r.before)
]

clean : (b : Bool) (i : ℕ) (s : Bytes) → comment_index b i (before_comment b s) ≡ none
unfolding comment_index before_comment
clean b i [] = refl
clean b i (c ∷ s) = ground (arith, clean (not b) (suc i) s, clean b (suc i) s)

before_comment-IsComment :
    (b : Bool) (s : Bytes) → (rest : Bytes) × ((s ≡ before_comment b s ++ rest) × IsComment rest)
unfolding before_comment
before_comment-IsComment b [] = ([], (refl, tt))
before_comment-IsComment b (c ∷ s) = elim (Bool-cases (c == b'`')) [
  | inl e ↦
      let (rest, (p, q)) = before_comment-IsComment (not b) s in
      (rest, (rw (e, ◌++◌, before_comment) (ap (◌∷◌ c) p), q))
  | inr e ↦ elim (Bool-cases (c == b'#' && not b)) [
    | inl f ↦ (c ∷ s, (rw (e, f, ◌++◌, before_comment) refl, ground arith))
    | inr f ↦
        let (rest, (p, q)) = before_comment-IsComment b s in
        (rest, (rw (e, f, ◌++◌, before_comment) (ap (◌∷◌ c) p), q))
  ]
]

strip_line-clean : (s : Bytes) → comment_index false 0 s ≡ none → strip_line s ≡ s
unfolding strip_line
strip_line-clean s h = rw (h, strip_line) refl

-- A line is cut into what is kept and a rest that is empty or begins with the comment sign; what is
-- kept has no comment sign outside backticks, so that stripping it again changes nothing.
strip_line_lem :
    (line : Bytes)
    → ((rest : Bytes) × ((line ≡ strip_line line ++ rest) × IsComment rest))
      × (comment_index false 0 (strip_line line) ≡ none)
      × (strip_line (strip_line line) ≡ strip_line line)
strip_line_lem line = rw (strip_line-before_comment line) (
  before_comment-IsComment false line,
  clean false 0 line,
  strip_line-clean (before_comment false line) (clean false 0 line),
)
