-- ===== src/Tests/Buckets.antt =====
-- The theorems on buckets and on updates of the operator set, applied.
use mnemoca.Store.Fault.{fine, ghost}
use mnemoca.Prelude.{contains, ◌<◌, [], ◌∷◌, ℕ, ◌≡◌, ◌≤◌, refl, length, delete_all, insert, lookup}
use mnemoca.Store.Bucket.{Bucket}
use mnemoca.Api.Operators.{begin_revoke, OperatorSet}
use mnemoca.Api.Operators.Laws.{begin_revoke_lem, Distinct}
use mnemoca.Store.Bucket.Laws.{creations, creations-le-one}

abbrev nonces : Bucket ℕ
nonces = record { docs = ("n1", 10) ∷ ("n2", 20) ∷ []; seq = 0 }

creations-le-one_example : creations "k" ((ghost, 1) ∷ (fine, 2) ∷ (fine, 3) ∷ []) nonces ≤ 1
creations-le-one_example = creations-le-one "k" ((ghost, 1) ∷ (fine, 2) ∷ (fine, 3) ∷ []) nonces

abbrev two : OperatorSet
two = record { ids = "a" ∷ "b" ∷ []; revoking = [] }

abbrev one_left : OperatorSet
one_left = record { ids = "b" ∷ []; revoking = ("a", 100) ∷ [] }

begin_revoke_lem_example :
    (0 < length one_left.ids)
    × Distinct one_left.ids
    × (one_left ≡ record { ids = delete_all two.ids "a"; revoking = insert "a" 100 two.revoking })
unfolding begin_revoke contains lookup delete_all insert
begin_revoke_lem_example = begin_revoke_lem 100 "a" two {o' = one_left} (refl, (refl, tt)) refl
