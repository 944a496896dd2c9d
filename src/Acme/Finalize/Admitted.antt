-- ===== src/Acme/Finalize/Admitted.antt =====
-- Which orders are finalized, and what a finalization leaves.
use mnemoca.Prelude.{
  String, true, Option, none, some, Result, ok, err, ◌≡◌, ◌≢◌, refl, ◌⊎◌, inl, inr, arith, eq_iff,
  ap, sym, ◌∙◌, Result-cases, Option-cases, Bool-cases, lookup,
}
use mathlib.Core.Path.{subst}
use mnemoca.Store.Fault.{StoreError}
use mnemoca.Store.Bucket.{get}
use mnemoca.Store.Bucket.Laws.{get_found}
use mnemoca.Audit.Record.{Bytes}
use mnemoca.Ca.Issuing.{Pki}
use mnemoca.Acme.Names.{CsrError, check_csr_identifiers}
use mnemoca.Acme.Orders.{Order, Status}
use mnemoca.Acme.Problem.{Account}
use mnemoca.Acme.Finalize.{
  ParsedCsr, CsrForms, Desk, DeskCall, is_owner, is_ready, if_owned, load_order, names_checked,
  admit, finalize_admitted, handle_finalize,
}

pub is_owner-some :
    (a : Option Account) (owner : String)
    → is_owner a owner ≡ true
    → (acct : Account) × (a ≡ some acct) × (owner ≡ acct.id)
is_owner-some none owner h = absurd (ground (arith, h))
is_owner-some (some acct) owner h = (acct, refl, (eq_iff owner acct.id).0 h)

is_ready_lem : (s : Status) → is_ready s ≡ true → s ≡ Status.ready
is_ready_lem Status.ready h = refl
is_ready_lem Status.pending h = absurd (ground (arith, h))
is_ready_lem Status.valid h = absurd (ground (arith, h))
is_ready_lem Status.invalid h = absurd (ground (arith, h))

if_owned_ok :
    (a : Option Account) (r : Result StoreError Order) (o : Order)
    → if_owned a r ≡ ok o
    → (r ≡ ok o) × (is_owner a o.account_id ≡ true)
if_owned_ok a (err e) o h = absurd (ground (arith, h))
if_owned_ok a (ok p) o h = elim (Bool-cases (is_owner a p.account_id)) [
  | inl mine ↦
      let same : p ≡ o = ground (arith, h, mine) in
      (ap ok same, ap (λ (x : Order). is_owner a x.account_id) (sym same) ∙ mine)
  | inr other ↦ absurd (ground (arith, h, other))
]

names_checked_ok : (r : Result CsrError (Unit {0})) → names_checked r ≡ ok tt → r ≡ ok tt
names_checked_ok (ok _) h = refl
names_checked_ok (err e) h = absurd (ground (arith, h))

module _ (fs : CsrForms) (pki : Pki) where
  -- The order is stored, the account's, and ready, and the signed CSR has its names.
  abbrev pub IsAdmitted : Option Account → String → Desk → Order → ParsedCsr → Type 0
  IsAdmitted account id s o parsed =
      (acct : Account) × (account ≡ some acct)
      × (lookup id s.orders.docs ≡ some o)
      × (o.account_id ≡ acct.id)
      × (o.status ≡ Status.ready)
      × (parsed.csr.signature_valid ≡ true)
      × (check_csr_identifiers parsed.names o.identifiers ≡ ok tt)

  admit-IsAdmitted :
      (c : DeskCall) (account : Option Account) (id : String) (payload : Bytes) (s : Desk)
      (o : Order) (parsed : ParsedCsr)
      → admit fs pki c account id payload s ≡ ok (o, parsed)
      → IsAdmitted account id s o parsed
  unfolding admit load_order
  admit-IsAdmitted c account id payload s o parsed h =
      elim (Result-cases (if_owned account (get c.on_order id s.orders))) [
        | inl (e, bad) ↦ absurd (ground (arith, h, bad))
        | inr (p, loaded) ↦ elim (Option-cases (fs.body_csr payload)) [
          | inl bad ↦ absurd (ground (arith, h, loaded, bad))
          | inr (body, e₀) ↦ elim (Option-cases (fs.unbase64 body)) [
            | inl bad ↦ absurd (ground (arith, h, loaded, e₀, bad))
            | inr (der, e₁) ↦ elim (Option-cases (fs.parse_csr der)) [
              | inl bad ↦ absurd (ground (arith, h, loaded, e₀, e₁, bad))
              | inr (q, e₂) ↦
                  let same : p ≡ o = ground (arith, h, loaded, e₀, e₁, e₂) in
                  let same_csr : q ≡ parsed = ground (arith, h, loaded, e₀, e₁, e₂) in
                  let ready : is_ready p.status ≡ true = ground (arith, h, loaded, e₀, e₁, e₂) in
                  let signed : q.csr.signature_valid ≡ true =
                    ground (arith, h, loaded, e₀, e₁, e₂) in
                  let named : names_checked (check_csr_identifiers q.names p.identifiers) ≡ ok tt =
                    ground (arith, h, loaded, e₀, e₁, e₂) in
                  let (found, mine) = if_owned_ok account (get c.on_order id s.orders) p loaded in
                  let (acct, there, owner) = is_owner-some account p.account_id mine in
                  subst (λ (x : ParsedCsr). IsAdmitted account id s o x) same_csr
                    (subst (λ (x : Order). IsAdmitted account id s x q) same
                      (
                        acct,
                        there,
                        get_found c.on_order id s.orders found,
                        owner,
                        is_ready_lem p.status ready,
                        signed,
                        names_checked_ok (check_csr_identifiers q.names p.identifiers) named,
                      ))
            ]
          ]
        ]
      ]

  -- A finalization that is not admitted changes nothing, and one that is goes on with an order that was
  -- stored, ready and the requesting account's, and with a signed CSR that has the order's names.
  pub handle_finalize-IsAdmitted :
      (c : DeskCall) (tenant : String) (account : Option Account) (id : String) (payload : Bytes)
      (s : Desk)
      → let (answer, s') = handle_finalize fs pki c tenant account id payload s in
        ((s' ≡ s) × ((o : Order) → answer ≢ ok o))
        ⊎ ((o : Order) × (parsed : ParsedCsr) × IsAdmitted account id s o parsed
            × ((answer, s') ≡ finalize_admitted fs pki c tenant account o parsed s))
  unfolding handle_finalize
  handle_finalize-IsAdmitted c tenant account id payload s =
      elim (Result-cases (admit fs pki c account id payload s)) [
        | inl (e, bad) ↦ inl (ground (arith, bad), λ o h. ground (arith, h, bad))
        | inr ((o, parsed), good) ↦ inr (
          o,
          parsed,
          admit-IsAdmitted c account id payload s o parsed good,
          rw (good, handle_finalize) refl,
        )
      ]
