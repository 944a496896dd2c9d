-- ===== src/Pkix/Algs/Oids.antt =====
-- What an object identifier and a name determine.
use mnemoca.Pkix.Algs.{
  none, length, ltb, false, some, Bool, ℕ, Info, registry, aux_registry, by_oid, find_oid, oid_eq,
  entry_of, lookup_alg,
}
use mnemoca.Prelude.{if◌then◌else◌, ◌++◌, arith, ◌≡◌, List, [], ◌∷◌, All, true, refl}

oid_eq_sound : (a b : List ℕ) → oid_eq a b ≡ true → a ≡ b
unfolding oid_eq
oid_eq_sound [] [] h = refl
oid_eq_sound [] (_ ∷ _) h = absurd (ground (arith, h))
oid_eq_sound (_ ∷ _) [] h = absurd (ground (arith, h))
oid_eq_sound (a ∷ as') (b ∷ bs) h = ground (arith, oid_eq_sound as' bs)

-- An entry is found by its name, and by its object identifier if it has one.
abbrev pub IsResolved : Info → Type 0
IsResolved info =
    (lookup_alg info.alg ≡ some info)
    × (by_oid registry aux_registry info.oid
        ≡ (if ltb 0 (length info.oid) then some info else none))

-- Every registered algorithm is found by its name, and by its object identifier if it has one; an
-- empty object identifier finds nothing.
pub registered-IsResolved : All IsResolved (registry ++ aux_registry)
unfolding lookup_alg by_oid find_oid oid_eq entry_of
registered-IsResolved = (
  (refl, refl),
  (
    (refl, refl),
    (
      (refl, refl),
      (
        (refl, refl),
        (
          (refl, refl),
          (
            (refl, refl),
            (
              (refl, refl),
              (
                (refl, refl),
                (
                  (refl, refl),
                  (
                    (refl, refl),
                    ((refl, refl), ((refl, refl), ((refl, refl), ((refl, refl), tt)))),
                  ),
                ),
              ),
            ),
          ),
        ),
      ),
    ),
  ),
)

find_oid_sound :
    (strict : Bool) (infos : List Info) (oid : List ℕ) {info : Info}
    → find_oid strict infos oid ≡ some info
    → info.oid ≡ oid
unfolding find_oid
find_oid_sound strict [] oid {info} h = absurd (ground (arith, h))
find_oid_sound strict (first ∷ infos) oid {info} h =
    ground (arith, h, oid_eq_sound first.oid oid, find_oid_sound strict infos oid {info = info})

-- What ByOID returns has the identifier that was asked for, in whatever order the maps are met.
pub by_oid_sound :
    (main aux : List Info) (oid : List ℕ) {info : Info}
    → by_oid main aux oid ≡ some info
    → info.oid ≡ oid
unfolding by_oid
by_oid_sound main aux oid {info} h = ground (
  arith,
  h,
  find_oid_sound false main oid {info = info},
  find_oid_sound true aux oid {info = info},
)
