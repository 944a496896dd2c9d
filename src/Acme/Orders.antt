-- ===== src/Acme/Orders.antt =====
-- internal/acme/challenge.go: the status of an order from those of its authorizations.
pub mod Settled
use mnemoca.Store.Fault.{fine, refused, Fault, StoreError}
use mathlib.Core.Path.{ap, subst}
use mathlib.Core.Option.{some-injective}
use mnemoca.Store.Fault.{fine, refused, ghost}
use mnemoca.Store.Bucket.Laws.{get_found}
use mnemoca.Store.Bucket.{Bucket, get, put}
use mnemoca.Prelude.{
  eq_refl, lookup-insert, Dict, insert, refl, inr, ◌∙◌, sym, arith, inl, Result-cases, Option, ◌⊎◌,
  some, lookup, if◌then◌else◌, ◌≡◌, ℕ, String, Bool, true, false, List, [], ◌∷◌, Result, ok, err,
}

-- the statuses that an object can have
pub data Status : Type 0 where
  pending ready valid invalid : Status

pub record Authz : Type 0 where
  pub id : String
  pub order_id : String
  pub account_id : String
  pub identifier : String
  pub status : Status
  pub expires : ℕ
  pub challenge_ids : List String

-- `error` names the identifier whose authorization failed.
pub record Order : Type 0 where
  pub id : String
  pub account_id : String
  pub status : Status
  pub expires : ℕ
  pub identifiers : List String
  pub authz_ids : List String
  pub cert_id : String
  pub error : Option String

-- what the scan of the authorizations says of the order
pub data Verdict : Type 0 where
  refuse : String → Verdict
  wait grant : Verdict

-- one authorization, given what the rest says if it is valid and if it is not yet
abbrev pub by_status :
    Status
    → String
    → Result StoreError Verdict
    → Result StoreError Verdict
    → Result StoreError Verdict
by_status Status.invalid name on waiting = ok (Verdict.refuse name)
by_status Status.valid name on waiting = on
by_status Status.pending name on waiting = waiting
by_status Status.ready name on waiting = waiting

-- the loop of updateOrderStatus, with `allValid` so far and the outcome of each read
unfoldable pub scan :
    (String → Fault) → Bucket Authz → Bool → List String → Result StoreError Verdict
scan f authzs all_valid [] = ok (if all_valid then Verdict.grant else Verdict.wait)
scan f authzs all_valid (id ∷ ids) =
    let on = scan f authzs all_valid ids in
    let waiting = scan f authzs false ids in
    elim (get (f id) id authzs) [
      | err e ↦ err e
      | ok az ↦ by_status az.status az.identifier on waiting
    ]

abbrev pub settle :
    Fault
    → String
    → Order
    → Result StoreError Verdict
    → Bucket Order
    → Result StoreError (Unit {0}) × Bucket Order
settle g id o (err e) orders = (err e, orders)
settle g id o (ok Verdict.wait) orders = (ok tt, orders)
settle g id o (ok (Verdict.refuse name)) orders =
    put g id (record o { status = Status.invalid; error = some name }) orders
settle g id o (ok Verdict.grant) orders = put g id (record o { status = Status.ready }) orders

abbrev pub if_pending {ℓ} : {A : Type ℓ} → Status → A → A → A
if_pending Status.pending a b = a
if_pending Status.ready a b = b
if_pending Status.valid a b = b
if_pending Status.invalid a b = b

-- `h` is the outcome of the order's read, `g` that of its write.
unfoldable pub update_order_status :
    Fault
    → (String → Fault)
    → Fault
    → String
    → Bucket Authz
    → Bucket Order
    → Result StoreError (Unit {0}) × Bucket Order
update_order_status h f g id authzs orders = elim (get h id orders) [
  | err e ↦ (err e, orders)
  | ok o ↦
      if_pending o.status (settle g id o (scan f authzs true o.authz_ids) orders) (ok tt, orders)
]
