-- ===== src/Api/State.antt =====
-- internal/api: the shared state that the handlers of every replica work on, and the calls that
-- they make of it.
use mnemoca.Prelude.{ℕ, String, Bool, true, Option, none, some, List, [], ◌∷◌, ◌++◌, lookup, Result}
use mnemoca.Store.Fault.{Fault, StoreError, unavailable, UpdateError, commit}
use mnemoca.Store.Bucket.{Bucket, update}
use mnemoca.Api.Key.{ApiKey}
use mnemoca.Api.Operators.{OperatorSet, OperatorError, zero_set}

-- An audit record of the API: its action, the key that it is about, and the caller.
pub record Event : Type 0 where
  pub action : String
  pub object : String
  pub actor : String

-- `file` tells whether the data directory holds the minted bootstrap key's file
pub record Keys : Type 0 where
  pub keys : Bucket ApiKey
  pub operators : Bucket OperatorSet
  pub log : List Event
  pub file : Bool
  pub now : ℕ

abbrev pub or_zero : Option OperatorSet → OperatorSet
or_zero none = zero_set
or_zero (some o) = o

abbrev pub operator_meta_key : String
operator_meta_key = "operators"

-- the operator set as the next update will see it
unfoldable pub operator_set : Keys → OperatorSet
operator_set s = or_zero (lookup operator_meta_key s.operators.docs)

unfoldable pub update_operators :
    Fault
    → (OperatorSet → Result OperatorError OperatorSet)
    → Keys
    → Result (UpdateError OperatorError) (Unit {0}) × Keys
unfolding update
update_operators f fn s =
    let (r, b) = update f true operator_meta_key (λ o. fn (or_zero o)) s.operators in
    (r, record s { operators = b })

-- an append to the audit log
unfoldable pub log_event : Fault → Event → Keys → Result StoreError (Unit {0}) × Keys
log_event f e s = commit f unavailable tt s (record s { log = s.log ++ e ∷ [] })
