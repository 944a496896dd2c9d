-- ===== src/Store/Fault.antt =====
-- How a call of the store ends, and the errors that it returns (internal/store/store.go).
use mnemoca.Prelude.{Result, ok, err}

-- The outcome of one call, chosen by the environment: it completes; it fails and has no effect;
-- or it fails although the write was committed (the reply was lost).
pub data Fault : Type 0 where
  fine refused ghost : Fault

-- `ErrNotFound`, an empty bucket path, and any other error of the backend.
pub data StoreError : Type 0 where
  not_found empty_path unavailable : StoreError

-- The error of an `Update`: the store's, or the one that the caller's function returned.
pub data UpdateError {ℓ} (E : Type ℓ) : Type ℓ where
  of_store : StoreError → UpdateError E
  rejected : E → UpdateError E

-- The end of a write: `old` is the state before it, `new` the state that it commits.
abbrev pub commit {ℓ κ μ} :
    {E : Type ℓ} {A : Type κ} {S : Type μ} → Fault → E → A → S → S → Result E A × S
commit fine e a old new = (ok a, new)
commit refused e a old new = (err e, old)
commit ghost e a old new = (err e, new)
