-- ===== src/Store/Retried.antt =====
-- internal/store: what an `Update` is to its caller. A backend may run the callback on values that
-- were read and then lost to another writer, before the run whose result it stores; the variables
-- that the callback captures keep what those runs left in them.
use mnemoca.Prelude.{
  refl, ◌≡◌, false, true, none, some, String, Bool, Option, List, [], ◌∷◌, Result, lookup,
}
use mnemoca.Store.Fault.{Fault, UpdateError}
use mnemoca.Store.Bucket.{store_out, Bucket, update}

-- the captured variables after runs of the callback whose results were dropped
unfoldable pub replayed {ℓ κ μ} :
    {V : Type ℓ} {E : Type κ} {S : Type μ}
    → (S → Option V → Result E V × S)
    → S
    → List (Option V)
    → S
replayed fn s [] = s
replayed fn s (o ∷ os) = replayed fn (fn s o).1 os

-- The last run of the callback is on the stored value; if it does not come to that, the variables
-- stay as they are.
abbrev pub last_vars {ℓ κ μ} :
    {V : Type ℓ} {E : Type κ} {S : Type μ}
    → Bool
    → (S → Option V → Result E V × S)
    → S
    → Option V
    → S
last_vars create fn s (some v) = (fn s (some v)).1
last_vars true fn s none = (fn s none).1
last_vars false fn s none = s

unfoldable pub retried {ℓ κ μ} :
    {V : Type ℓ} {E : Type κ} {S : Type μ}
    → Fault
    → Bool
    → String
    → (S → Option V → Result E V × S)
    → List (Option V)
    → S
    → Bucket V
    → Result (UpdateError E) (Unit {0}) × S × Bucket V
unfolding replayed update
retried f create k fn lost s b =
    let s' = replayed fn s lost in
    let (r, b') = update f create k (λ o. (fn s' o).0) b in
    (r, last_vars create fn s' (lookup k b.docs), b')

-- On a stored document, the update stores the result of the callback's last run.
pub retried_found {ℓ κ μ} :
    {V : Type ℓ} {E : Type κ} {S : Type μ} (f : Fault) (create : Bool) (k : String)
    (fn : S → Option V → Result E V × S) (lost : List (Option V)) (s : S) (b : Bucket V) {v : V}
    → lookup k b.docs ≡ some v
    → retried f create k fn lost s b ≡ (
      (store_out f k b (fn (replayed fn s lost) (some v)).0).0,
      (fn (replayed fn s lost) (some v)).1,
      (store_out f k b (fn (replayed fn s lost) (some v)).0).1,
    )
unfolding retried update
retried_found f create k fn lost s b found = rw (found, update) refl
