-- ===== src/Acme/Orders/Settled.antt =====
-- When the status of an order changes, and to what.
use mnemoca.Acme.Orders.{
  Status, Authz, Order, Verdict, scan, by_status, settle, if_pending, update_order_status,
}
use mnemoca.Store.Fault.{fine, refused, Fault, StoreError}
use mathlib.Core.Path.{ap, subst}
use mathlib.Core.Option.{some-injective}
use mnemoca.Store.Fault.{fine, refused, ghost}
use mnemoca.Store.Bucket.Laws.{get_found}
use mnemoca.Store.Bucket.{Bucket, get, put}
use mnemoca.Prelude.{
  eq_refl, lookup-insert, Dict, insert, refl, inr, ◌∙◌, sym, arith, inl, Result-cases, ◌⊎◌, some,
  lookup, ◌≡◌, String, Bool, true, false, List, [], ◌∷◌, Result, ok, err,
}

-- Every authorization of the list is stored and valid.
unfoldable pub AllValid : Bucket Authz → List String → Type 0
AllValid authzs [] = Unit
AllValid authzs (id ∷ ids) =
    ((az : Authz) × (lookup id authzs.docs ≡ some az) × (az.status ≡ Status.valid))
    × AllValid authzs ids

granted_by :
    (status : Status) (name : String) (on waiting : Result StoreError Verdict)
    → by_status status name on waiting ≡ ok Verdict.grant
    → ((status ≡ Status.valid) × (on ≡ ok Verdict.grant)) ⊎ (waiting ≡ ok Verdict.grant)
granted_by Status.invalid name on waiting h = absurd (ground (arith, h))
granted_by Status.valid name on waiting h = inl (refl, h)
granted_by Status.pending name on waiting h = inr h
granted_by Status.ready name on waiting h = inr h

module _ (f : String → Fault) (authzs : Bucket Authz) where
  scan_unread :
      (all_valid : Bool) (id : String) (ids : List String) {e : StoreError}
      → get (f id) id authzs ≡ err e
      → scan f authzs all_valid (id ∷ ids) ≡ err e
  unfolding scan
  scan_unread all_valid id ids h = rw (scan, h) refl

  scan_read :
      (all_valid : Bool) (id : String) (ids : List String) {az : Authz}
      → get (f id) id authzs ≡ ok az
      → scan f authzs all_valid (id ∷ ids)
        ≡ by_status az.status az.identifier (scan f authzs all_valid ids) (scan f authzs false ids)
  unfolding scan
  scan_read all_valid id ids h = rw (scan, h) refl

  scan-AllValid :
      (all_valid : Bool) (ids : List String)
      → scan f authzs all_valid ids ≡ ok Verdict.grant
      → (all_valid ≡ true) × AllValid authzs ids
  unfolding scan AllValid
  scan-AllValid true [] h = (refl, tt)
  scan-AllValid false [] h = absurd (ground (arith, h))
  scan-AllValid all_valid (id ∷ ids) h = elim (Result-cases (get (f id) id authzs)) [
    | inl (e, failed) ↦ absurd (ground (arith, sym h ∙ scan_unread all_valid id ids failed))
    | inr (az, found) ↦
        elim (granted_by az.status az.identifier _ _ (sym (scan_read all_valid id ids found) ∙ h)) [
          | inl (good, on) ↦
              let (so_far, rest) = scan-AllValid all_valid ids on in
              (so_far, ((az, get_found (f id) id authzs found, good), rest))
          | inr waiting ↦ absurd (ground (arith, (scan-AllValid false ids waiting).0))
        ]
  ]

-- The orders are as they were, or the order is put with a status that the verdict gives.
abbrev Moved : String → Order → Result StoreError Verdict → Bucket Order → Bucket Order → Type 0
Moved id o r orders orders' =
    (orders' ≡ orders)
    ⊎ ((new : Order) × (orders'.docs ≡ insert id new orders.docs)
        × (((new.status ≡ Status.ready) × (r ≡ ok Verdict.grant)) ⊎ (new.status ≡ Status.invalid)))

settle-Moved :
    (g : Fault) (id : String) (o : Order) (r : Result StoreError Verdict) (orders : Bucket Order)
    → Moved id o r orders (settle g id o r orders).1
unfolding put
settle-Moved g id o (err e) orders = inl refl
settle-Moved g id o (ok Verdict.wait) orders = inl refl
settle-Moved refused id o (ok (Verdict.refuse name)) orders = inl refl
settle-Moved fine id o (ok (Verdict.refuse name)) orders = inr (_, refl, inr refl)
settle-Moved ghost id o (ok (Verdict.refuse name)) orders = inr (_, refl, inr refl)
settle-Moved refused id o (ok Verdict.grant) orders = inl refl
settle-Moved fine id o (ok Verdict.grant) orders = inr (_, refl, inl (refl, refl))
settle-Moved ghost id o (ok Verdict.grant) orders = inr (_, refl, inl (refl, refl))

pub if_pending_cases {ℓ} :
    {A : Type ℓ} (status : Status) (a b : A)
    → (if_pending status a b ≡ b) ⊎ ((status ≡ Status.pending) × (if_pending status a b ≡ a))
if_pending_cases Status.pending a b = inr (refl, refl)
if_pending_cases Status.ready a b = inl refl
if_pending_cases Status.valid a b = inl refl
if_pending_cases Status.invalid a b = inl refl

pub updated :
    (h : Fault) (f : String → Fault) (g : Fault) (id : String) (authzs : Bucket Authz)
    (orders : Bucket Order) {o : Order}
    → get h id orders ≡ ok o
    → update_order_status h f g id authzs orders
      ≡ if_pending o.status (settle g id o (scan f authzs true o.authz_ids) orders) (ok tt, orders)
unfolding update_order_status
updated h f g id authzs orders found = rw (update_order_status, found) refl

pub unread :
    (h : Fault) (f : String → Fault) (g : Fault) (id : String) (authzs : Bucket Authz)
    (orders : Bucket Order) {e : StoreError}
    → get h id orders ≡ err e
    → update_order_status h f g id authzs orders ≡ (err e, orders)
unfolding update_order_status
unread h f g id authzs orders failed = rw (update_order_status, failed) refl

update_order_status-Moved :
    (h : Fault) (f : String → Fault) (g : Fault) (id : String) (authzs : Bucket Authz)
    (orders : Bucket Order) {o : Order}
    → lookup id orders.docs ≡ some o
    → let orders' = (update_order_status h f g id authzs orders).1 in
      (orders' ≡ orders)
      ⊎ ((o.status ≡ Status.pending) × Moved id o (scan f authzs true o.authz_ids) orders orders')
update_order_status-Moved h f g id authzs orders {o} before =
    elim (Result-cases (get h id orders)) [
      | inl (e, failed) ↦ inl (ap (λ u. u.1) (unread h f g id authzs orders failed))
      | inr (read, found) ↦
          let same : read ≡ o = some-injective _ _ (sym (get_found h id orders found) ∙ before) in
          let now = updated h f g id authzs orders (found ∙ ap ok same) in
          elim (if_pending_cases o.status (settle g id o (scan f authzs true o.authz_ids) orders)
            (ok tt, orders)) [
              | inl kept ↦ inl (ap (λ u. u.1) (now ∙ kept))
              | inr (waited, settled) ↦ inr (
                waited,
                subst (λ u. Moved id o (scan f authzs true o.authz_ids) orders u.1)
                    (sym (now ∙ settled))
                    (settle-Moved g id o (scan f authzs true o.authz_ids) orders),
              )
            ]
    ]

found_new :
    (id : String) (new : Order) (docs : Dict Order) → lookup id (insert id new docs) ≡ some new
found_new id new docs = rw (lookup-insert, eq_refl) refl

kept_order :
    {orders orders' : Bucket Order} (id : String) {o o' : Order}
    → lookup id orders.docs ≡ some o
    → lookup id orders'.docs ≡ some o'
    → orders' ≡ orders
    → o' ≡ o
kept_order id before after same =
    some-injective _ _ (sym after ∙ ap (λ b. lookup id b.docs) same ∙ before)

-- An order becomes ready only when it was pending and each of its authorizations is stored and
-- valid; a status that is not pending is never changed.
pub update_order_status_lem :
    (h : Fault) (f : String → Fault) (g : Fault) (id : String) (authzs : Bucket Authz)
    (orders : Bucket Order) {o o' : Order}
    → lookup id orders.docs ≡ some o
    → lookup id (update_order_status h f g id authzs orders).1.docs ≡ some o'
    → (o' ≡ o)
      ⊎ ((o.status ≡ Status.pending)
          × (((o'.status ≡ Status.ready) × AllValid authzs o.authz_ids)
              ⊎ (o'.status ≡ Status.invalid)))
update_order_status_lem h f g id authzs orders {o} {o'} before after =
    elim (update_order_status-Moved h f g id authzs orders before) [
      | inl same ↦ inl (kept_order id before after same)
      | inr (waited, inl same) ↦ inl (kept_order id before after same)
      | inr (waited, inr (new, put_there, verdict)) ↦
          let at : o' ≡ new =
            some-injective _ _
              (sym after ∙ ap (lookup id) put_there ∙ found_new id new orders.docs) in
          inr (
            waited,
            elim verdict [
              | inl (now_ready, granted) ↦ inl (
                ap (λ u. u.status) at ∙ now_ready,
                (scan-AllValid f authzs true o.authz_ids granted).1,
              )
              | inr refused_it ↦ inr (ap (λ u. u.status) at ∙ refused_it)
            ],
          )
    ]
