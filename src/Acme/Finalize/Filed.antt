-- ===== src/Acme/Finalize/Filed.antt =====
-- What a finalization that succeeds has stored, and two that read the order before either wrote it.
use mnemoca.Prelude.{
  String, true, Option, some, List, [], ◌∷◌, ◌++◌, Result, ok, err, ◌≡◌, ◌≢◌, refl, inl, inr, arith,
  eq_iff, ap, sym, ◌∙◌, Result-cases, lookup, lookup-insert, eq_refl, insert,
}
use mathlib.Core.Path.{ap₂}
use mnemoca.Store.Fault.{Fault, fine, refused, ghost, StoreError, commit}
use mnemoca.Store.Bucket.{Bucket, put}
use mnemoca.Audit.Record.{Bytes}
use mnemoca.Ca.Issue.{CaError}
use mnemoca.Ca.Issuing.{Cert, Pki}
use mnemoca.Ca.Request.{issue}
use mnemoca.Acme.Orders.{Order, Status}
use mnemoca.Acme.Problem.{AcmeError, Account, in_store, errf}
use mnemoca.Acme.Accounts.{AcmeEvent}
use mnemoca.Acme.Finalize.{
  ParsedCsr, CsrForms, Desk, DeskCall, is_owner, request_of, stored_of, account_id, file_cert,
  file_first, finalize_admitted, handle_cert,
}

module _ {V : Type 0} where
  put_ok :
      (f : Fault) (k : String) (v : V) (b : Bucket V)
      → (put f k v b).0 ≡ ok tt
      → (put f k v b).1.docs ≡ insert k v b.docs
  unfolding put
  put_ok fine k v b h = refl
  put_ok refused k v b h = absurd (ground (arith, h))
  put_ok ghost k v b h = absurd (ground (arith, h))

logged_ok :
    (f : Fault) (e : AcmeError) (o o' : Order) (s s' : Desk) (events : List AcmeEvent)
    → commit {0, 0, 0} f e o s (record s { log = events }) ≡ (ok o', s')
    → (o ≡ o') × (record s { log = events } ≡ s')
logged_ok fine e o o' s s' events h = (ground (arith, h), ap (λ t. t.1) h)
logged_ok refused e o o' s s' events h = absurd (ground (arith, h))
logged_ok ghost e o o' s s' events h = absurd (ground (arith, h))

module _ (fs : CsrForms) (pki : Pki) where
  abbrev pub done_order : DeskCall → Order → Order
  done_order c o = record o { status = Status.valid; cert_id = c.fresh_id }

  -- the certificate is stored under the new id, and the order says so
  abbrev pub IsFiled : DeskCall → Option Account → Order → Cert → Desk → Order → Desk → Type 0
  IsFiled c account o cert s o' s' =
      (o' ≡ done_order c o)
      × (s'.certs.docs ≡ insert c.fresh_id (stored_of fs pki c account cert) s.certs.docs)
      × (s'.orders.docs ≡ insert o.id (done_order c o) s.orders.docs)
      × (s'.ca ≡ s.ca)

  file_cert-IsFiled :
      (c : DeskCall) (account : Option Account) (o : Order) (cert : Cert) (s : Desk) (o' : Order)
      (s' : Desk)
      → file_cert fs pki c account o cert s ≡ (ok o', s')
      → IsFiled c account o cert s o' s'
  unfolding file_cert
  file_cert-IsFiled c account o cert s o' s' h =
      elim (Result-cases (put c.on_cert c.fresh_id (stored_of fs pki c account cert) s.certs).0) [
        | inl (e, bad) ↦ absurd (ground (arith, h, bad))
        | inr (_, kept) ↦ elim (Result-cases (put c.on_update o.id (done_order c o) s.orders).0) [
          | inl (e, bad) ↦ absurd (ground (arith, h, kept, bad))
          | inr (_, updated) ↦
              let certs = (put c.on_cert c.fresh_id (stored_of fs pki c account cert) s.certs).1 in
              let orders = (put c.on_update o.id (done_order c o) s.orders).1 in
              let event : AcmeEvent = record {
                action = "acme.order.finalize";
                actor = account_id account;
                object = o.id;
              } in
              let s₁ : Desk = record s { certs = certs; orders = orders } in
              let step : file_cert fs pki c account o cert s
                  ≡ commit {0, 0, 0} c.on_log (in_store StoreError.unavailable) (done_order c o) s₁
                      (record s₁ { log = s.log ++ event ∷ [] }) =
                rw (kept, updated, file_cert) refl in
              let logged : commit {0, 0, 0} c.on_log (in_store StoreError.unavailable)
                    (done_order c o) s₁ (record s₁ { log = s.log ++ event ∷ [] })
                  ≡ (ok o', s') =
                sym step ∙ h in
              let (same, ends) = logged_ok c.on_log _ _ o' s₁ s' _ logged in
              (
                sym same,
                ap (λ (x : Desk). x.certs.docs) (sym ends)
                    ∙ put_ok c.on_cert c.fresh_id (stored_of fs pki c account cert) s.certs kept,
                ap (λ (x : Desk). x.orders.docs) (sym ends)
                    ∙ put_ok c.on_update o.id (done_order c o) s.orders updated,
                ap (λ (x : Desk). x.ca) (sym ends),
              )
        ]
      ]

  file_first-IsFiled :
      (c : DeskCall) (account : Option Account) (o : Order) (r : Result CaError (List Cert))
      (s : Desk) (o' : Order) (s' : Desk)
      → file_first fs pki c account o r s ≡ (ok o', s')
      → (cert : Cert) × (certs : List Cert) × (r ≡ ok (cert ∷ certs))
        × IsFiled c account o cert s o' s'
  unfolding file_first
  file_first-IsFiled c account o (err e) s o' s' h =
      let wrong = ap (λ (t : Result AcmeError Order × Desk). t.0) h in
      absurd (ground (arith, wrong))
  file_first-IsFiled c account o (ok []) s o' s' h =
      let wrong : err (errf 500 "serverInternal") ≡ ok o' =
        ap (λ (t : Result AcmeError Order × Desk). t.0) h in
      absurd (ground (arith, wrong))
  file_first-IsFiled c account o (ok (cert ∷ certs)) s o' s' h =
      (cert, certs, refl, file_cert-IsFiled c account o cert s o' s' h)

  -- A finalization that answers with an order has had a certificate issued; the order is stored as valid
  -- with the certificate's id, under which its chain is served to the account and to no other.
  pub finalized_served :
      (c : DeskCall) (tenant : String) (acct : Account) (o : Order) (parsed : ParsedCsr) (s : Desk)
      (o' : Order) (s' : Desk) (other : Option Account)
      → finalize_admitted fs pki c tenant (some acct) o parsed s ≡ (ok o', s')
      → (cert : Cert) × (certs : List Cert) × ((issue pki c.weather
            (request_of fs pki tenant parsed)
            s.ca).0
          ≡ ok (cert ∷ certs))
        × (o'.status ≡ Status.valid)
        × (lookup o.id s'.orders.docs ≡ some o')
        × (handle_cert fs pki fine (some acct) o'.cert_id s' ≡ ok (fs.chain_pem cert))
        × ((chain : Bytes)
            → handle_cert fs pki fine other o'.cert_id s' ≡ ok chain
            → is_owner other acct.id ≡ true)
  unfolding finalize_admitted handle_cert
  finalized_served c tenant acct o parsed s o' s' other h =
      let issued = issue pki c.weather (request_of fs pki tenant parsed) s.ca in
      let (cert, certs, made, (same, kept, updated, _)) =
        file_first-IsFiled c (some acct) o issued.0 (record s { ca = issued.1 }) o' s' h in
      let sc = stored_of fs pki c (some acct) cert in
      let found : lookup o'.cert_id s'.certs.docs ≡ some sc =
        ap₂ lookup (ap (λ (x : Order). x.cert_id) same) kept
        ∙ ground (arith, lookup-insert c.fresh_id c.fresh_id sc s.certs.docs, eq_refl c.fresh_id) in
      let done : lookup o.id s'.orders.docs ≡ some (done_order c o) =
        ap (lookup o.id) updated
        ∙ ground (arith, lookup-insert o.id o.id (done_order c o) s.orders.docs, eq_refl o.id) in
      (
        cert,
        certs,
        made,
        ap (λ (x : Order). x.status) same,
        done ∙ ap some (sym same),
        ground (arith, found, eq_refl acct.id),
        λ chain served. ground (arith, found, served),
      )

  -- Two finalizations that have both read the order while it was ready, and then go on one after the
  -- other, each have a certificate issued: both are stored, for one order.
  pub finalized_twice :
      (c c' : DeskCall) (tenant : String) (acct : Account) (o : Order) (parsed parsed' : ParsedCsr)
      (s : Desk) (o₁ o₂ : Order) (s₁ s₂ : Desk)
      → c'.fresh_id ≢ c.fresh_id
      → finalize_admitted fs pki c tenant (some acct) o parsed s ≡ (ok o₁, s₁)
      → finalize_admitted fs pki c' tenant (some acct) o parsed' s₁ ≡ (ok o₂, s₂)
      → (first : Cert) × (second : Cert) × (lookup c.fresh_id s₂.certs.docs
          ≡ some (stored_of fs pki c (some acct) first))
        × (lookup c'.fresh_id s₂.certs.docs ≡ some (stored_of fs pki c' (some acct) second))
        × (lookup o.id s₂.orders.docs ≡ some (done_order c' o))
  unfolding finalize_admitted
  finalized_twice c c' tenant acct o parsed parsed' s o₁ o₂ s₁ s₂ apart h h' =
      let issued = issue pki c.weather (request_of fs pki tenant parsed) s.ca in
      let issued' = issue pki c'.weather (request_of fs pki tenant parsed') s₁.ca in
      let (first, _, _, (_, kept, _, _)) =
        file_first-IsFiled c (some acct) o issued.0 (record s { ca = issued.1 }) o₁ s₁ h in
      let (second, _, _, (_, kept', updated', _)) =
        file_first-IsFiled c' (some acct) o issued'.0 (record s₁ { ca = issued'.1 }) o₂ s₂ h' in
      let sc = stored_of fs pki c (some acct) first in
      let sc' = stored_of fs pki c' (some acct) second in
      (
        first,
        second,
        ap (lookup c.fresh_id) kept'
            ∙ ground (
              arith,
              lookup-insert c'.fresh_id c.fresh_id sc' s₁.certs.docs,
              eq_iff c'.fresh_id c.fresh_id,
              apart,
              ap (lookup c.fresh_id) kept,
              lookup-insert c.fresh_id c.fresh_id sc s.certs.docs,
              eq_refl c.fresh_id,
            ),
        ap (lookup c'.fresh_id) kept'
            ∙ ground (
              arith,
              lookup-insert c'.fresh_id c'.fresh_id sc' s₁.certs.docs,
              eq_refl c'.fresh_id,
            ),
        ap (lookup o.id) updated'
            ∙ ground
                (arith, lookup-insert o.id o.id (done_order c' o) s₁.orders.docs, eq_refl o.id),
      )
