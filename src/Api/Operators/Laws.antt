-- ===== src/Api/Operators/Laws.antt =====
-- What each update of the operator set does to its members.
use mnemoca.Prelude.{
  ℕ, ◌+◌, ◌≤◌, ◌<◌, ◌≡◌, refl, String, false, ◌&&◌, ◌||◌, some, List, [], ◌∷◌, ◌++◌, arith, length,
  contains, delete_all, contains-delete_all, contains-append, delete_all_of_not-contains, lookup,
  insert, ok, err, str_eq, eq_iff, if◌then◌else◌, leb, ◌==◌,
}
use mnemoca.Api.Operators.{
  OperatorSet, revoke_in_progress, has, add_operator, begin_revoke, finish_revoke,
}

-- No id is listed twice.
abbrev pub Distinct : List String → Type 0
Distinct [] = Unit
Distinct (x ∷ xs) = (contains xs x ≡ false) × Distinct xs

pub has-add_operator :
    (id j : String) (o : OperatorSet) → has (add_operator id o) j ≡ (str_eq id j || has o j)
unfolding has add_operator contains
has-add_operator id j o = ground (arith, contains-append o.ids (id ∷ []) j, eq_iff id j)

pub has-finish_revoke :
    (id j : String) (o : OperatorSet)
    → has (finish_revoke id o) j ≡ (if str_eq id j then false else has o j)
unfolding has finish_revoke
has-finish_revoke id j o = contains-delete_all o.ids id j

Distinct-snoc :
    (xs : List String) (a : String) → Distinct xs → contains xs a ≡ false → Distinct (xs ++ a ∷ [])
unfolding contains
Distinct-snoc [] a d h = (refl, tt)
Distinct-snoc (x ∷ xs) a d h = (
  ground (arith, contains-append xs (a ∷ []) x, eq_iff a x, eq_iff x a),
  Distinct-snoc xs a d.1 (ground arith),
)

Distinct-delete_all : (xs : List String) (a : String) → Distinct xs → Distinct (delete_all xs a)
unfolding delete_all
Distinct-delete_all [] a d = tt
Distinct-delete_all (x ∷ xs) a d =
    ground (arith, contains-delete_all xs a x, Distinct-delete_all xs a d.1)

pub add_operator-Distinct :
    (id : String) (o : OperatorSet) → Distinct o.ids → Distinct (add_operator id o).ids
unfolding add_operator has
add_operator-Distinct id o d = ground (arith, Distinct-snoc o.ids id d)

pub finish_revoke-Distinct :
    (id : String) (o : OperatorSet) → Distinct o.ids → Distinct (finish_revoke id o).ids
unfolding finish_revoke
finish_revoke-Distinct id o d = Distinct-delete_all o.ids id d

-- One id of a list of distinct ids is one place of it.
pub length-delete_all :
    (xs : List String) (a : String) → Distinct xs → length xs ≤ length (delete_all xs a) + 1
unfolding delete_all
length-delete_all [] a d = omega arith
length-delete_all (x ∷ xs) a d =
    ground (arith, length-delete_all xs a d.1, delete_all_of_not-contains xs a, eq_iff x a)

-- What remains after a claim: the guard leaves one id at least.
left_over :
    (id : String) (ids : List String)
    → Distinct ids
    → (leb (length ids) 1 && contains ids id || length ids == 0) ≡ false
    → 0 < length (delete_all ids id)
left_over id ids d h = ground (arith, length-delete_all ids id d, delete_all_of_not-contains ids id)

-- A revocation that is let through claims the id for itself, takes it off the list, leaves the
-- other ids, and leaves at least one.
pub begin_revoke_lem :
    (now : ℕ) (id : String) (o : OperatorSet) {o' : OperatorSet}
    → Distinct o.ids
    → begin_revoke now id o ≡ ok o'
    → (0 < length o'.ids)
      × Distinct o'.ids
      × (o' ≡ record { ids = delete_all o.ids id; revoking = insert id now o.revoking })
unfolding begin_revoke
begin_revoke_lem now id o d h = ground (arith, left_over id o.ids d, Distinct-delete_all o.ids id d)

-- While a claim is fresh every other revocation of the id is refused.
pub begin_revoke_claimed :
    (now t : ℕ) (id : String) (o : OperatorSet)
    → lookup id o.revoking ≡ some t
    → now < t + 300
    → begin_revoke now id o ≡ err revoke_in_progress
unfolding begin_revoke
begin_revoke_claimed now t id o h fresh = ground arith
