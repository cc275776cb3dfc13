-- ===== src/Traefik/Env/Resolve.antt =====
-- What a template resolves to.
use mathlib.Core.List.{append_assoc}
use joyride.Common.{
  Bytes, same, same_refl, Bool, true, not, ◌&&◌, List, [], ◌∷◌, ◌++◌, map, All, ◌≡◌, ◌∙◌, refl, ap,
  sym, arith, if◌then◌else◌, Option-cases, inl, inr,
}
use joyride.Common.Map.{Map, get}
use joyride.Traefik.Pattern.{after_prefix}
use joyride.Traefik.Env.{replace_first, resolve_references, resolve_env_template}
use joyride.Traefik.Env.Pieces.{
  Piece, with_reference, template_of, no_brace, value_of, IsPlain, reference_text, reference_to,
  behind_brace, after_prefix-append, with_reference-append, references-template,
}

-- The pieces with each reference replaced by its value, and the text behind them.
abbrev pub filled : Map Bytes → List Piece → Bytes → Bytes
filled env [] tail = tail
filled env (p ∷ ps) tail = p.literal ++ (value_of (get env p.key) ++ filled env ps tail)

-- Each variable has a value that is not empty.
abbrev pub all_set : Map Bytes → List Piece → Bool
all_set env [] = true
all_set env (p ∷ ps) = not (same (value_of (get env p.key)) []) && all_set env ps

no_brace-append :
    (xs ys : Bytes) → no_brace xs ≡ true → no_brace ys ≡ true → no_brace (xs ++ ys) ≡ true
no_brace-append [] ys h k = k
no_brace-append (c ∷ xs) ys h k = ground (arith, h, no_brace-append xs ys)

-- The first occurrence of what begins with a brace is behind a text without one.
replace_first-behind :
    (old new xs s : Bytes)
    → no_brace xs ≡ true
    → replace_first (b'{' ∷ old) new (xs ++ (b'{' ∷ (old ++ s))) ≡ xs ++ (new ++ s)
unfolding replace_first after_prefix
replace_first-behind old new [] s h = ground (arith, after_prefix-append old s)
replace_first-behind old new (c ∷ xs) s h = ground (arith, h, replace_first-behind old new xs s)

-- A piece is resolved behind what has been resolved before.
replace_first-piece :
    (env : Map Bytes) (p : Piece) (done value rest : Bytes)
    → IsPlain env p
    → no_brace done ≡ true
    → replace_first (reference_text p) value (done ++ (p.literal ++ with_reference p rest))
      ≡ (done ++ (p.literal ++ value)) ++ rest
replace_first-piece env p done value rest plain h =
    ap (λ x. replace_first (reference_text p) value (done ++ (p.literal ++ x)))
      (with_reference-append p rest)
    ∙ ap (replace_first (reference_text p) value)
        (sym (append_assoc done p.literal (reference_text p ++ rest)))
    ∙ replace_first-behind (behind_brace p) value (done ++ p.literal) rest
        (no_brace-append done p.literal h plain.literal)
    ∙ sym (append_assoc (done ++ p.literal) value rest)
    ∙ ap (λ x. x ++ rest) (append_assoc done p.literal value)

resolve_references-pieces :
    (env : Map Bytes) (ps : List Piece) (tail done : Bytes)
    → All (IsPlain env) ps
    → no_brace done ≡ true
    → resolve_references env (map reference_to ps) (done ++ template_of ps tail)
      ≡ (if all_set env ps then done ++ filled env ps tail else [])
unfolding resolve_references
resolve_references-pieces env [] tail done h d = refl
resolve_references-pieces env (p ∷ ps) tail done (plain, h) d =
    let value = value_of (get env p.key) in
    let done' = done ++ (p.literal ++ value) in
    elim (Option-cases (get env p.key)) [
      | inl e ↦ ground (arith, e, same_refl [])
      | inr (v, e) ↦ ground (
        arith,
        e,
        replace_first-piece env p done v (template_of ps tail) plain d,
        append_assoc done (p.literal ++ v) (filled env ps tail),
        append_assoc p.literal v (filled env ps tail),
        resolve_references-pieces env ps tail (done ++ (p.literal ++ v)) h (
            no_brace-append done (p.literal ++ v) d (
              no_brace-append p.literal v plain.literal
                (ap (λ x. no_brace (value_of x)) (sym e) ∙ plain.value))),
      )
    ]

-- A template made of texts without an opening brace and of references, to variables whose values
-- have none either, is those texts with each reference replaced by its value, if all the variables
-- have values that are not empty; otherwise it is empty.
pub resolve_env_template-filled :
    (env : Map Bytes) (ps : List Piece) (tail : Bytes)
    → All (IsPlain env) ps
    → no_brace tail ≡ true
    → resolve_env_template env (template_of ps tail)
      ≡ (if all_set env ps then filled env ps tail else [])
unfolding resolve_env_template
resolve_env_template-filled env ps tail h t =
    ap (λ rs. resolve_references env rs (template_of ps tail)) (references-template env ps tail h t)
    ∙ resolve_references-pieces env ps tail [] h refl
