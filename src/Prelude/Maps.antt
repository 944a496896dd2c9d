-- ===== src/Prelude/Maps.antt =====
-- A finite map with text keys, as an association list in key order: the documents of one bucket,
-- and Go's maps.
use Prim.Native.Nat.{Ordering}
use Prim.Native.String.{String, compare}
use mathlib.Core.Path.{◌≡◌, refl}
use mathlib.Core.Bool.{Bool, true, false}
use mathlib.Core.Option.{Option, none, some}
use mathlib.Core.List.{List, [], ◌∷◌, ◌++◌}
use native.Mathlib.Omega.{arith}
use text.Mathlib.Text.{◌==◌ as str_eq}
use text.Mathlib.TextEquality.{eq_iff}
use mnemoca.Prelude.Lists.{All}
use mnemoca.Prelude.Tests.{if◌then◌else◌}

abbrev pub Dict {ℓ} : Type ℓ → Type ℓ
Dict V = List (String × V)

before : String → String → Bool
before k j = elim (compare k j) [ Ordering.lt ↦ true | _ ↦ false ]

module _ {ℓ} {V : Type ℓ} where
  unfoldable pub lookup : String → Dict V → Option V
  lookup key [] = none
  lookup key ((name, doc) ∷ docs) = if str_eq name key then some doc else lookup key docs

  unfoldable pub insert : String → V → Dict V → Dict V
  unfolding before
  insert key new [] = (key, new) ∷ []
  insert key new ((name, doc) ∷ docs) =
      let later = insert key new docs in
      if str_eq name key
      then (key, new) ∷ docs
      else if before key name
      then (key, new) ∷ (name, doc) ∷ docs
      else (name, doc) ∷ later

  unfoldable pub remove : String → Dict V → Dict V
  remove key [] = []
  remove key ((name, doc) ∷ docs) =
      let left = remove key docs in if str_eq name key then left else (name, doc) ∷ left

  -- A lookup after an insertion finds the new document under its key and what was there elsewhere.
  pub lookup-insert :
      (key other : String) (new : V) (docs : Dict V)
      → lookup other (insert key new docs)
        ≡ (if str_eq key other then some new else lookup other docs)
  unfolding lookup insert
  lookup-insert key other new [] = ground arith
  lookup-insert key other new ((name, doc) ∷ docs) =
      let here = eq_iff name key in
      let there = eq_iff name other in
      ground (arith, lookup-insert key other new docs, here, there, eq_iff key other)

  pub lookup-remove :
      (key other : String) (docs : Dict V)
      → lookup other (remove key docs) ≡ (if str_eq key other then none else lookup other docs)
  unfolding lookup remove
  lookup-remove key other [] = ground arith
  lookup-remove key other ((name, doc) ∷ docs) =
      let here = eq_iff name key in
      let there = eq_iff name other in
      ground (arith, lookup-remove key other docs, here, there, eq_iff key other)

  pub remove-insert :
      (key : String) (new : V) (docs : Dict V) → remove key (insert key new docs) ≡ remove key docs
  unfolding insert remove
  remove-insert key new [] = ground (arith, (eq_iff key key).1 refl)
  remove-insert key new ((name, doc) ∷ docs) =
      ground (arith, remove-insert key new docs, (eq_iff key key).1 refl)

  -- A key after all others goes to the end.
  pub insert_last :
      (key : String) (new : V) (docs : Dict V)
      → All
          (λ (d : String × V). (compare d.0 key ≡ Ordering.lt) × (compare key d.0 ≡ Ordering.gt))
          docs
      → insert key new docs ≡ docs ++ (key, new) ∷ []
  unfolding insert before
  insert_last key new [] later = refl
  insert_last key new ((name, doc) ∷ docs) ((less, more), later) =
      ground (arith, less, more, insert_last key new docs later)
