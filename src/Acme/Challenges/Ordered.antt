-- ===== src/Acme/Challenges/Ordered.antt =====
-- What a challenge does to the orders.
use mnemoca.Prelude.{
  String, true, false, Option, some, Result, ok, err, ◌≡◌, refl, ◌⊎◌, inl, inr, arith, eq_iff, ap,
  sym, ◌∙◌, Result-cases, Bool-cases, lookup, str_eq,
}
use mathlib.Core.Path.{subst}
use mathlib.Core.Option.{some-injective}
use mnemoca.Store.Fault.{Fault, StoreError}
use mnemoca.Store.Bucket.{Bucket, get, put}
use mnemoca.Store.Bucket.Laws.{put-lookup}
use mnemoca.Audit.Record.{Bytes}
use mnemoca.Acme.Problem.{Account}
use mnemoca.Acme.Keys.{Codec}
use mnemoca.Acme.Orders.{Authz, Order, Status, Verdict, scan, settle, update_order_status}
use mnemoca.Acme.Orders.Settled.{
  AllValid, updated, unread, if_pending_cases, update_order_status_lem,
}
use mnemoca.Acme.Challenges.{
  Network, Trials, ChallengeCall, judged, judged_authz, attempt, store_outcome, handle_challenge,
}
use mnemoca.Acme.Challenges.Proved.{store_outcome_orders, handle_challenge_cases}

put_other {ℓ} :
    {V : Type ℓ} (f : Fault) (k : String) (v : V) (b : Bucket V) (id : String)
    → str_eq id k ≡ false
    → lookup id (put f k v b).1.docs ≡ lookup id b.docs
put_other f k v b id h = elim (put-lookup f k v b id) [
  | inl same ↦ same
  | inr (at, _) ↦ absurd (ground (arith, h, (eq_iff id k).1 at))
]

settle_other :
    (g : Fault) (id : String) (o : Order) (r : Result StoreError Verdict) (orders : Bucket Order)
    (other : String)
    → str_eq other id ≡ false
    → lookup other (settle g id o r orders).1.docs ≡ lookup other orders.docs
settle_other g id o (err e) orders other h = refl
settle_other g id o (ok Verdict.wait) orders other h = refl
settle_other g id o (ok (Verdict.refuse name)) orders other h = put_other g id _ orders other h
settle_other g id o (ok Verdict.grant) orders other h = put_other g id _ orders other h

update_order_status_other :
    (h : Fault) (f : String → Fault) (g : Fault) (id : String) (authzs : Bucket Authz)
    (orders : Bucket Order) (other : String)
    → str_eq other id ≡ false
    → lookup other (update_order_status h f g id authzs orders).1.docs ≡ lookup other orders.docs
update_order_status_other h f g id authzs orders other apart =
    elim (Result-cases (get h id orders)) [
      | inl (e, failed) ↦ ap (λ u. lookup other u.1.docs) (unread h f g id authzs orders failed)
      | inr (o, found) ↦
          let now = updated h f g id authzs orders found in
          let r = scan f authzs true o.authz_ids in
          elim (if_pending_cases o.status (settle g id o r orders) (ok tt, orders)) [
            | inl kept ↦ ap (λ u. lookup other u.1.docs) (now ∙ kept)
            | inr (_, settled) ↦
                ap (λ u. lookup other u.1.docs) (now ∙ settled)
                ∙ settle_other g id o r orders other apart
          ]
    ]

-- The order is as it was, or it was pending and is ready, with every authorization stored as valid, or
-- invalid.
abbrev pub IsMoved : Bucket Authz → Order → Order → Type 0
IsMoved authzs o o' =
    (o' ≡ o)
    ⊎ ((o.status ≡ Status.pending)
        × (((o'.status ≡ Status.ready) × AllValid authzs o.authz_ids)
            ⊎ (o'.status ≡ Status.invalid)))

update_order_status-IsMoved :
    (h : Fault) (f : String → Fault) (g : Fault) (id : String) (authzs : Bucket Authz)
    (orders : Bucket Order) (any : String) (o o' : Order)
    → lookup any orders.docs ≡ some o
    → lookup any (update_order_status h f g id authzs orders).1.docs ≡ some o'
    → IsMoved authzs o o'
update_order_status-IsMoved h f g id authzs orders any o o' before after =
    elim (Bool-cases (str_eq any id)) [
      | inl here ↦
          let at = (eq_iff any id).0 here in
          update_order_status_lem h f g id authzs orders
            (ap (λ k. lookup k orders.docs) (sym at) ∙ before)
            (ap (λ k. lookup k (update_order_status h f g id authzs orders).1.docs) (sym at)
              ∙ after)
      | inr apart ↦
          let same = update_order_status_other h f g id authzs orders any apart in
          inl (some-injective _ _ (sym after ∙ same ∙ before))
    ]

module _ (l : Codec) (n : Network) where
  -- A request to a challenge leaves an order as it was, or the order was pending and is now ready, with
  -- every one of its authorizations stored as valid, or invalid.
  pub handle_challenge-IsMoved :
      (c : ChallengeCall) (account : Option Account) (id : String) (payload : Bytes) (s : Trials)
      (order_id : String) (o o' : Order)
      → let s' = (handle_challenge l n c account id payload s).1 in
        lookup order_id s.orders.docs ≡ some o
        → lookup order_id s'.orders.docs ≡ some o'
        → IsMoved s'.authzs o o'
  handle_challenge-IsMoved c account id payload s order_id o o' before after =
      elim (handle_challenge_cases l n c account id payload s) [
        | inl kept ↦ inl (
            some-injective _ _
              (sym after ∙ ap (λ (t : Trials). lookup order_id t.orders.docs) kept ∙ before))
        | inr (acct, ch, az, _, _, _, stored) ↦
            let v = attempt l n acct az ch in
            let t = (store_outcome l n c (judged c.now v ch) (judged_authz v az) s).1 in
            let found : lookup order_id t.orders.docs ≡ some o' =
              ap (λ (t : Trials). lookup order_id t.orders.docs) (sym stored) ∙ after in
            subst (λ (t : Trials). IsMoved t.authzs o o') (sym stored)
              (elim (store_outcome_orders l n c (judged c.now v ch) (judged_authz v az) s) [
                | inl same ↦ inl (
                    some-injective _ _
                      (sym found ∙ ap (λ (b : Bucket Order). lookup order_id b.docs) same ∙ before))
                | inr moved ↦
                    update_order_status-IsMoved c.on_order c.on_scan c.on_store_order _ t.authzs
                      s.orders order_id o o' before
                      (ap (λ (b : Bucket Order). lookup order_id b.docs) (sym moved) ∙ found)
              ])
      ]
