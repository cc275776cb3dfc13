-- ===== src/Traefik/Env/Pieces.antt =====
-- Templates put together from pieces, and the references that are found in them.
use mathlib.Core.List.{append_assoc}
use joyride.Common.{
  ℕ, ◌-◌, Bytes, codes, same, take, length, length-append, Bool, true, false, not, ◌&&◌, Option,
  none, some, List, [], ◌∷◌, ◌++◌, ◌==◌, map, All, ◌≡◌, ◌∙◌, refl, ap, sym, arith,
}
use joyride.Common.Map.{Map, get}
use joyride.Traefik.Pattern.{after_prefix, until, non_empty}
use joyride.Traefik.Env.{is_blank, after_blanks, Reference, closed_key, match_reference, references}

-- A piece of a template: text, and a reference to a variable with the blanks in it.
pub record Piece : Type 0 where
  pub literal : Bytes
  pub blanks : Bytes
  pub key : Bytes

abbrev pub quoted_key : Bytes → Bytes → Bytes
quoted_key key s = b'"' ∷ (key ++ (codes "\"}}" ++ s))

-- The reference, in front of a text.
abbrev pub with_reference : Piece → Bytes → Bytes
with_reference p s = codes "{{env" ++ (p.blanks ++ quoted_key p.key s)

-- The template of the pieces, with a text behind them.
abbrev pub template_of : List Piece → Bytes → Bytes
template_of [] tail = tail
template_of (p ∷ ps) tail = p.literal ++ with_reference p (template_of ps tail)

abbrev pub no_brace : Bytes → Bool
no_brace [] = true
no_brace (c ∷ s) = not (c == b'{') && no_brace s

abbrev pub no_quote : Bytes → Bool
no_quote [] = true
no_quote (c ∷ s) = not (c == b'"') && no_quote s

abbrev pub all_blank : Bytes → Bool
all_blank [] = true
all_blank (c ∷ s) = is_blank c && all_blank s

-- The value of a variable, empty without one.
abbrev pub value_of : Option Bytes → Bytes
value_of none = []
value_of (some value) = value

-- A piece that is told apart in the template, whose value brings in no brace.
pub record IsPlain (env : Map Bytes) (p : Piece) : Type 0 where
  pub literal : no_brace p.literal ≡ true
  pub blanks : all_blank p.blanks ≡ true
  pub some_blank : same p.blanks [] ≡ false
  pub key : no_quote p.key ≡ true
  pub some_key : same p.key [] ≡ false
  pub value : no_brace (value_of (get env p.key)) ≡ true

pub after_prefix-append : (p s : Bytes) → after_prefix p (p ++ s) ≡ some s
unfolding after_prefix
after_prefix-append [] s = refl
after_prefix-append (c ∷ p) s = ground (arith, after_prefix-append p s)

after_blanks-seen :
    (bs s : Bytes) → all_blank bs ≡ true → after_blanks true (bs ++ (b'"' ∷ s)) ≡ some (b'"' ∷ s)
unfolding after_blanks
after_blanks-seen [] s h = refl
after_blanks-seen (c ∷ bs) s h = ground (arith, h, after_blanks-seen bs s)

after_blanks-some :
    (bs s : Bytes)
    → all_blank bs ≡ true
    → same bs [] ≡ false
    → after_blanks false (bs ++ (b'"' ∷ s)) ≡ some (b'"' ∷ s)
unfolding after_blanks same
after_blanks-some [] s h ne = cc
after_blanks-some (c ∷ bs) s h ne = ground (arith, h, after_blanks-seen bs s)

until-quote : (key s : Bytes) → no_quote key ≡ true → until b'"' (key ++ (b'"' ∷ s)) ≡ some key
unfolding until
until-quote [] s h = refl
until-quote (c ∷ key) s h = ground (arith, h, until-quote key s)

non_empty-some : (key : Bytes) → same key [] ≡ false → non_empty (some key) ≡ some key
unfolding same
non_empty-some [] h = cc
non_empty-some (c ∷ key) h = refl

closed_key-quoted :
    (key s : Bytes)
    → no_quote key ≡ true
    → same key [] ≡ false
    → closed_key (key ++ (codes "\"}}" ++ s)) ≡ some (key, s)
unfolding closed_key
closed_key-quoted key s h ne = ground (
  arith,
  until-quote key (codes "}}" ++ s) h,
  non_empty-some key ne,
  append_assoc key (codes "\"}}") s,
  after_prefix-append (key ++ codes "\"}}") s,
)

take-append : (xs ys : Bytes) → take (length xs) (xs ++ ys) ≡ xs
take-append [] ys = refl
take-append (x ∷ xs) ys = ap (◌∷◌ x) (take-append xs ys)

abbrev pub reference_text : Piece → Bytes
reference_text p = codes "{{env" ++ (p.blanks ++ (b'"' ∷ (p.key ++ codes "\"}}")))

abbrev pub reference_to : Piece → Reference
reference_to p = record { text = reference_text p; key = p.key }

pub with_reference-append : (p : Piece) (s : Bytes) → with_reference p s ≡ reference_text p ++ s
with_reference-append p s =
    ap (λ x. codes "{{env" ++ x)
      (ap (λ x. p.blanks ++ (b'"' ∷ x)) (sym (append_assoc p.key (codes "\"}}") s))
        ∙ sym (append_assoc p.blanks (b'"' ∷ (p.key ++ codes "\"}}")) s))

cut_off : (xs ys : Bytes) → take (length (xs ++ ys) - length ys) (xs ++ ys) ≡ xs
cut_off xs ys = ap (λ n. take n (xs ++ ys)) (omega (arith, length-append xs ys)) ∙ take-append xs ys

match_reference-with :
    (env : Map Bytes) (p : Piece) (s : Bytes)
    → IsPlain env p
    → match_reference (with_reference p s) ≡ some (reference_to p)
unfolding match_reference after_prefix
match_reference-with env p s plain =
    ground (
      arith,
      after_blanks-some p.blanks (p.key ++ (codes "\"}}" ++ s)) plain.blanks plain.some_blank,
      closed_key-quoted p.key s plain.key plain.some_key,
    )
    ∙ ap (λ t. some (record { text = t; key = p.key }))
        (ap (λ x. take (length x - length s) x) (with_reference-append p s)
          ∙ cut_off (reference_text p) s)

match_reference-other : (c : ℕ) (s : Bytes) → (c == b'{') ≡ false → match_reference (c ∷ s) ≡ none
unfolding match_reference after_prefix
match_reference-other c s h = ground (arith, h)

references-literal :
    (lit s : Bytes) → no_brace lit ≡ true → references 0 (lit ++ s) ≡ references 0 s
unfolding references
references-literal [] s h = refl
references-literal (c ∷ lit) s h =
    ground (arith, h, match_reference-other c (lit ++ s), references-literal lit s)

references-skip : (xs s : Bytes) → references (length xs) (xs ++ s) ≡ references 0 s
unfolding references
references-skip [] s = refl
references-skip (c ∷ xs) s = references-skip xs s

references-tail : (s : Bytes) → no_brace s ≡ true → references 0 s ≡ []
unfolding references
references-tail [] h = refl
references-tail (c ∷ s) h = ground (arith, h, match_reference-other c s, references-tail s)

-- The text of a reference behind its first brace.
abbrev pub behind_brace : Piece → Bytes
behind_brace p = codes "{env" ++ (p.blanks ++ (b'"' ∷ (p.key ++ codes "\"}}")))

references-with :
    (env : Map Bytes) (p : Piece) (s : Bytes)
    → IsPlain env p
    → references 0 (with_reference p s) ≡ reference_to p ∷ references 0 s
unfolding references
references-with env p s plain =
    ap (references 0) (with_reference-append p s)
    ∙ found (match_reference (b'{' ∷ (behind_brace p ++ s)))
        (ap match_reference (sym (with_reference-append p s)) ∙ match_reference-with env p s plain)
  where
    found :
        (m : Option Reference)
        → m ≡ some (reference_to p)
        → (elim m [
          | none ↦ references 0 (behind_brace p ++ s)
          | some r ↦ r ∷ references (length r.text - 1) (behind_brace p ++ s)
        ])
          ≡ reference_to p ∷ references 0 s
    found m e = ground (arith, e, references-skip (behind_brace p) s)

pub references-template :
    (env : Map Bytes) (ps : List Piece) (tail : Bytes)
    → All (IsPlain env) ps
    → no_brace tail ≡ true
    → references 0 (template_of ps tail) ≡ map reference_to ps
references-template env [] tail h t = references-tail tail t
references-template env (p ∷ ps) tail (plain, h) t =
    references-literal p.literal (with_reference p (template_of ps tail)) plain.literal
    ∙ references-with env p (template_of ps tail) plain
    ∙ ap (◌∷◌ (reference_to p)) (references-template env ps tail h t)
