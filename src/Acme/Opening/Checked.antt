-- ===== src/Acme/Opening/Checked.antt =====
-- What the checks of a new order's identifiers let through.
use mnemoca.Prelude.{
  String, Option, none, some, List, [], ◌∷◌, ok, ◌>>=◌, ◌≡◌, ◌≢◌, refl, inl, inr, arith, eq_iff, ap,
  ◌∙◌, Result-cases, Bool-cases, str_eq, some_or, map,
}
use mnemoca.Acme.Problem.{malformed}
use mnemoca.Acme.Opening.{Identifier, check_identifiers, checked_body}

-- Every identifier is of type dns and is not empty.
abbrev pub AreDns : List Identifier → Type 0
AreDns [] = Unit
AreDns (i ∷ is) = ((i.typ ≡ "dns") × (i.value ≢ "")) × AreDns is

-- The request has identifiers, one at least and all proper, and the names are their values.
abbrev pub IsRequested : Option (List Identifier) → List String → Type 0
IsRequested body names =
    (i : Identifier) × (is : List Identifier) × (body ≡ some (i ∷ is))
    × AreDns (i ∷ is)
    × (names ≡ map (λ (x : Identifier). x.value) (i ∷ is))

check_identifiers-AreDns :
    (is : List Identifier) (names : List String)
    → check_identifiers is ≡ ok names
    → AreDns is × (names ≡ map (λ (x : Identifier). x.value) is)
unfolding check_identifiers
check_identifiers-AreDns [] names h = (tt, ground (arith, h))
check_identifiers-AreDns (i ∷ is) names h = elim (Bool-cases (str_eq i.typ "dns")) [
  | inr other ↦ absurd (ground (arith, h, other))
  | inl dns ↦ elim (Bool-cases (str_eq i.value "")) [
    | inl blank ↦ absurd (ground (arith, h, dns, blank))
    | inr there ↦ elim (Result-cases (check_identifiers is)) [
      | inl (e, bad) ↦ absurd (ground (arith, h, dns, there, bad))
      | inr (rest, good) ↦
          let (proper, values) = check_identifiers-AreDns is rest good in
          let split : names ≡ i.value ∷ rest = ground (arith, h, dns, there, good) in
          (
            (
              ((eq_iff i.typ "dns").0 dns, λ e. ground (arith, there, (eq_iff i.value "").1 e)),
              proper,
            ),
            split ∙ ap (λ xs. i.value ∷ xs) values,
          )
    ]
  ]
]

pub checked_body-IsRequested :
    (body : Option (List Identifier)) (names : List String)
    → (some_or malformed body >>= checked_body) ≡ ok names
    → IsRequested body names
unfolding checked_body
checked_body-IsRequested none names h = absurd (ground (arith, h))
checked_body-IsRequested (some []) names h = absurd (ground (arith, h))
checked_body-IsRequested (some (i ∷ is)) names h =
    let (proper, values) = check_identifiers-AreDns (i ∷ is) names h in
    (i, is, refl, proper, values)
