-- ===== src/Api/Revocation/Expected.antt =====
-- What a revocation should answer, and what the guard of its claim lets through.
use mnemoca.Prelude.{
  ℕ, ◌+◌, String, Bool, true, false, ◌&&◌, ◌||◌, Option, none, some, List, [], ◌∷◌, Result, ok, err,
  ◌≡◌, refl, inl, inr, arith, ap, ◌∙◌, eq_iff, str_eq, ltb, leb, ◌==◌, length, contains, delete_all,
  lookup, lookup-insert, insert, remove, Dict, Bool-cases, ◌⊎◌, if◌then◌else◌,
}
use mnemoca.Store.Fault.{Fault, fine, rejected}
use mnemoca.Store.Bucket.{update}
use mnemoca.Store.Bucket.{store_out}
use mnemoca.Store.Bucket.Laws.{update_create}
use mnemoca.Api.Key.{ApiKey}
use mnemoca.Api.Operators.{
  claimed, OperatorSet, OperatorError, last_operator, revoke_in_progress, begin_revoke,
}
use mnemoca.Api.Operators.Laws.{Distinct, length-delete_all}
use mnemoca.Api.State.{Keys, or_zero, operator_meta_key, operator_set, update_operators}

-- is the id under another revocation that is younger than five minutes
abbrev pub is_held : ℕ → Option ℕ → Bool
is_held now none = false
is_held now (some t) = ltb now (t + 300)

-- is a key's revocation refused: another one is under way, or no other operator would be left
abbrev pub is_refused : String → ApiKey → Keys → Bool
is_refused id k s =
    let o = operator_set s in
    str_eq k.role "operator"
    && (is_held s.now (lookup id o.revoking) || length (delete_all o.ids id) == 0)

abbrev pub expected_of : String → Option ApiKey → Keys → ℕ
expected_of id none s = 404
expected_of id (some k) s = if is_refused id k s then 409 else 204

-- the status that a revocation should have
unfoldable pub expected : String → Keys → ℕ
unfolding lookup operator_set delete_all
expected id s = expected_of id (lookup id s.keys.docs) s

-- the operators and the claims without those of an id
abbrev pub without : String → OperatorSet → OperatorSet
without id o = record { ids = delete_all o.ids id; revoking = remove id o.revoking }

abbrev pub expected_set_of : String → Option ApiKey → Keys → OperatorSet
expected_set_of id none s = operator_set s
expected_set_of id (some k) s =
    if is_refused id k s
    then operator_set s
    else if str_eq k.role "operator"
    then without id (operator_set s)
    else operator_set s

-- the operators and the claims that it should leave
unfoldable pub expected_set : String → Keys → OperatorSet
unfolding lookup operator_set delete_all remove
expected_set id s = expected_set_of id (lookup id s.keys.docs) s

-- six calls that go through
abbrev pub six : List Fault
six = fine ∷ fine ∷ fine ∷ fine ∷ fine ∷ fine ∷ []

updated :
    (fn : OperatorSet → Result OperatorError OperatorSet) (s : Keys)
    (r : Result OperatorError OperatorSet)
    → fn (operator_set s) ≡ r
    → update fine true operator_meta_key (λ o. fn (or_zero o)) s.operators
      ≡ store_out fine operator_meta_key s.operators r
unfolding operator_set
updated fn s r h =
    update_create fine operator_meta_key (λ o. fn (or_zero o)) s.operators
    ∙ ap (store_out fine operator_meta_key s.operators) h

found_operators :
    (o : OperatorSet) (docs : Dict OperatorSet)
    → lookup operator_meta_key (insert operator_meta_key o docs) ≡ some o
found_operators o docs = rw lookup-insert refl

pub update_operators_fine :
    (fn : OperatorSet → Result OperatorError OperatorSet) (s : Keys) (o : OperatorSet)
    → fn (operator_set s) ≡ ok o
    → ((update_operators fine fn s).0 ≡ ok tt) × (operator_set (update_operators fine fn s).1 ≡ o)
unfolding update_operators operator_set
update_operators_fine fn s o h =
    let now = updated fn s (ok o) h in
    (
      ap (λ u. u.0) now,
      ap (λ u. or_zero (lookup operator_meta_key u.1.docs)) now
          ∙ ap or_zero (found_operators o s.operators.docs),
    )

pub update_operators_refused :
    (fn : OperatorSet → Result OperatorError OperatorSet) (s : Keys) (e : OperatorError)
    → fn (operator_set s) ≡ err e
    → ((update_operators fine fn s).0 ≡ err (rejected e))
      × (operator_set (update_operators fine fn s).1 ≡ operator_set s)
unfolding update_operators operator_set
update_operators_refused fn s e h =
    let now = updated fn s (err e) h in
    (ap (λ u. u.0) now, ap (λ u. or_zero (lookup operator_meta_key u.1.docs)) now)

-- A claim that is younger than five minutes is a fresh one.
held_claimed : (now : ℕ) (x : Option ℕ) → is_held now x ≡ claimed now x
held_claimed now none = refl
held_claimed now (some t) = ground arith

-- The last operator is the one without which none is left.
last_length :
    (ids : List String) (id : String)
    → Distinct ids
    → (leb (length ids) 1 && contains ids id || length ids == 0) ≡ (length (delete_all ids id) == 0)
unfolding contains delete_all
last_length [] id d = refl
last_length (x ∷ []) id d = ground (arith, eq_iff x id)
last_length (x ∷ y ∷ ids) id d = ground (arith, length-delete_all (x ∷ y ∷ ids) id d)

-- the operators with an id taken off, and a claim on it
abbrev pub taken_off : ℕ → String → OperatorSet → OperatorSet
taken_off now id o = record { ids = delete_all o.ids id; revoking = insert id now o.revoking }

pub guard_of :
    (now : ℕ) (id : String) (o : OperatorSet)
    → Distinct o.ids
    → let refused = is_held now (lookup id o.revoking) || length (delete_all o.ids id) == 0 in
      ((refused ≡ true) × (e : OperatorError) × (begin_revoke now id o ≡ err e))
      ⊎ ((refused ≡ false) × (begin_revoke now id o ≡ ok (taken_off now id o)))
unfolding begin_revoke
guard_of now id o d =
    let held = held_claimed now (lookup id o.revoking) in
    let last = last_length o.ids id d in
    elim (Bool-cases (claimed now (lookup id o.revoking))) [
      | inl e ↦ inl (ground (arith, held, e), revoke_in_progress, rw (e, begin_revoke) refl)
      | inr e ↦ elim (Bool-cases (leb (length o.ids) 1 && contains o.ids id || length o.ids == 0)) [
        | inl f ↦ inl (ground (arith, last, f), last_operator, rw (e, f, begin_revoke) refl)
        | inr f ↦ inr (ground (arith, held, last, e, f), rw (e, f, begin_revoke) refl)
      ]
    ]
