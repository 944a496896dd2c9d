-- ===== src/Api/Revocation.antt =====
-- internal/api/handlers.go and auth.go: the revocation of an API key and the creation of one, as
-- processes. A phase is a point of the handler between two calls of the store or of the audit
-- log, so every step is atomic and the steps of many handlers, on any replicas, interleave.
pub mod Phases
pub mod Invariant
pub mod Claim
pub mod Settle
pub mod Write
pub mod System
pub mod Updates
pub mod Load
pub mod Changes
pub mod Order
pub mod Calls
pub mod Safety
pub mod Handler
pub mod Answers
pub mod Expected
pub mod Completes
use mnemoca.Prelude.{ℕ, String, Bool, false, ◌&&◌, Result, ok, err, str_eq, if◌then◌else◌}
use mnemoca.Store.Fault.{Fault, StoreError, not_found, UpdateError, of_store, rejected}
use mnemoca.Store.Bucket.{get, put, delete}
use mnemoca.Api.Key.{ApiKey, is_operator}
use mnemoca.Api.Operators.{OperatorError, add_operator, begin_revoke, finish_revoke}
use mnemoca.Api.State.{Event, Keys, update_operators, log_event}

-- Where a handler stands: the id in the path, and the target that it has loaded. `storing`,
-- `counting` and `recording` are those of the creation of a key; `done` holds the status of the answer.
pub data Phase : Type 0 where
  idle : Phase
  loading : String → Phase
  claiming auditing deleting reporting checking finishing : String → ApiKey → Phase
  restoring clearing cleaning : String → Phase
  storing counting recording : ApiKey → Phase
  done : ℕ → Phase

-- what a handler knows besides the shared state: the caller's id, and `env.DB == "bolt"`
pub record Caller : Type 0 where
  pub caller : String
  pub bolt : Bool

abbrev pub bootstrap_minted_id : String
bootstrap_minted_id = "0000000000000000"

unfoldable pub loaded : String → Result StoreError ApiKey → Phase
loaded id (ok k) = if is_operator k.role then claiming id k else auditing id k
loaded id (err not_found) = done 404
loaded id (err _) = done 500

unfoldable pub after_claim : String → ApiKey → Result (UpdateError OperatorError) (Unit {0}) → Phase
after_claim id k (ok _) = auditing id k
after_claim id k (err (rejected _)) = done 409
after_claim id k (err (of_store _)) = done 500

-- `if err := …; err != nil`
abbrev pub branch {ℓ} : {E : Type ℓ} → Phase → Phase → Result E (Unit {0}) → Phase
branch good bad (ok _) = good
branch good bad (err _) = bad

pub checked : String → Result StoreError ApiKey → Phase
checked id (ok _) = restoring id
checked id (err not_found) = clearing id
checked id (err _) = done 500

event : String → String → Caller → Event
event action id c = record { action = action; object = id; actor = c.caller }

-- One call of the handler. `fail` is `reporting` (the failed attempt is audited, whatever comes of
-- it) and `checking` (the count is restored only if the key survived).
unfoldable pub step : Caller → Fault → Phase → Keys → Phase × Keys
unfolding loaded after_claim checked event
step c f (loading id) s = (loaded id (get f id s.keys), s)
step c f (claiming id k) s =
    let (r, s') = update_operators f (begin_revoke s.now id) s in (after_claim id k r, s')
step c f (auditing id k) s =
    let (r, s') = log_event f (event "apikey.revoke" id c) s in
    (branch (deleting id k) (checking id k) r, s')
step c f (deleting id k) s =
    let (r, b) = delete f id s.keys in
    (branch (finishing id k) (reporting id k) r, record s { keys = b })
step c f (reporting id k) s = (checking id k, (log_event f (event "apikey.revoke.failed" id c) s).1)
step c f (checking id k) s =
    (if is_operator k.role then checked id (get f id s.keys) else done 500, s)
step c f (restoring id) s = (done 500, (update_operators f (λ o. ok (add_operator id o)) s).1)
step c f (clearing id) s = (done 500, (update_operators f (λ o. ok (finish_revoke id o)) s).1)
step c f (finishing id k) s = (
  cleaning id,
  if is_operator k.role then (update_operators f (λ o. ok (finish_revoke id o)) s).1 else s,
)
step c f (cleaning id) s =
    (done 204, if str_eq id bootstrap_minted_id && c.bolt then record s { file = false } else s)
step c f (storing k) s =
    let (r, b) = put f k.id k s.keys in
    (
      branch (if is_operator k.role then counting k else recording k) (done 500) r,
      record s { keys = b },
    )
step c f (counting k) s =
    let (r, s') = update_operators f (λ o. ok (add_operator k.id o)) s in
    (branch (recording k) (done 500) r, s')
step c f (recording k) s =
    let (r, s') = log_event f (event "apikey.create" k.id c) s in
    (branch (done 201) (done 500) r, s')
step c f idle s = (idle, s)
step c f (done n) s = (done n, s)
