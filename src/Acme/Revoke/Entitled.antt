-- ===== src/Acme/Revoke/Entitled.antt =====
-- Who revokes a certificate through the ACME server.
use mnemoca.Prelude.{
  ℤ, pos, String, Bool, true, false, ◌&&◌, Option, none, some, [], ◌∷◌, Dict, Result, ok, err, ◌≡◌,
  ◌≢◌, refl, ◌⊎◌, inl, inr, arith, eq_iff, ap, sym, ◌∙◌, Result-cases, Option-cases, Bool-cases,
  str_eq, int_leb, if◌then◌else◌,
}
use mnemoca.Store.Fault.{Fault, fine, refused, ghost}
use mnemoca.Audit.Record.{Bytes}
use mnemoca.Ca.Issue.{CaError, revoke}
use mnemoca.Acme.Problem.{AcmeError, Account}
use mnemoca.Acme.Requests.{JwsRequest}
use mnemoca.Acme.Finalize.{StoredCert, Desk}
use mnemoca.Acme.Revoke.{
  ParsedCert, RevokeForms, RevokeCall, owns, scanned, open_revoke, revoker, plan_revoke,
  report_revoke, handle_revoke,
}

-- A certificate of the account with the serial is among the documents.
pub data HasOrdered (serial account : String) : Dict StoredCert → Type 0 where
  here :
      (key : String) (sc : StoredCert) (docs : Dict StoredCert)
      → sc.serial ≡ serial
      → sc.account_id ≡ account
      → HasOrdered serial account ((key, sc) ∷ docs)
  there :
      (key : String) (sc : StoredCert) (docs : Dict StoredCert)
      → HasOrdered serial account docs
      → HasOrdered serial account ((key, sc) ∷ docs)

owns-HasOrdered :
    (serial account : String) (docs : Dict StoredCert)
    → owns serial account docs ≡ true
    → HasOrdered serial account docs
unfolding owns
owns-HasOrdered serial account [] h = absurd (ground (arith, h))
owns-HasOrdered serial account ((key, sc) ∷ docs) h =
    elim (Bool-cases (str_eq sc.serial serial && str_eq sc.account_id account)) [
      | inl mine ↦
          here key sc docs ((eq_iff sc.serial serial).0 (ground (arith, mine)))
            ((eq_iff sc.account_id account).0 (ground (arith, mine)))
      | inr other ↦
          there key sc docs (owns-HasOrdered serial account docs (ground (arith, h, other)))
    ]

if_ok : (b : Bool) (a x : String) (e : AcmeError) → (if b then ok a else err e) ≡ ok x → b ≡ true
if_ok true a x e h = refl
if_ok false a x e h = absurd (ground (arith, h))

scanned_ok : (f : Fault) (owned : Bool) → scanned f owned ≡ ok tt → owned ≡ true
scanned_ok fine true h = refl
scanned_ok fine false h = absurd (ground (arith, h))
scanned_ok refused owned h = absurd (ground (arith, h))
scanned_ok ghost owned h = absurd (ground (arith, h))

module _ (fs : RevokeForms) where
  -- The account has ordered a certificate with the serial, or a bare key is the certificate's key.
  abbrev pub IsEntitled : JwsRequest → ParsedCert → Desk → Type 0
  IsEntitled req cert s =
      ((acct : Account) × (req.account ≡ some acct) × HasOrdered cert.serial acct.id s.certs.docs)
      ⊎ ((req.account ≡ none) × (fs.same_key req.key cert.public_key ≡ true))

  revoker-IsEntitled :
      (f : Fault) (req : JwsRequest) (account : Option Account) (cert : ParsedCert) (s : Desk)
      (actor : String)
      → req.account ≡ account
      → revoker fs f req account cert s.certs.docs ≡ ok actor
      → IsEntitled req cert s
  unfolding revoker
  revoker-IsEntitled f req (some acct) cert s actor at h =
      elim (Result-cases (scanned f (owns cert.serial acct.id s.certs.docs))) [
        | inl (e, bad) ↦ absurd (ground (arith, h, bad))
        | inr (_, good) ↦
            inl (acct, at, owns-HasOrdered cert.serial acct.id s.certs.docs (scanned_ok f _ good))
      ]
  revoker-IsEntitled f req none cert s actor at h = inr (at, if_ok _ _ actor _ h)

  -- The request names the certificate with a reason from 0 to 10.
  abbrev pub IsNamed : Bytes → ParsedCert → ℤ → Type 0
  IsNamed payload cert reason =
      (open_revoke fs payload ≡ ok (cert, reason))
      × (int_leb (pos 0) reason ≡ true)
      × (int_leb reason (pos 10) ≡ true)

  open_revoke-IsNamed :
      (payload : Bytes) (cert : ParsedCert) (reason : ℤ)
      → open_revoke fs payload ≡ ok (cert, reason)
      → IsNamed payload cert reason
  unfolding open_revoke
  open_revoke-IsNamed payload cert reason h = elim (Option-cases (fs.unjson_body payload)) [
    | inl bad ↦ absurd (ground (arith, h, bad))
    | inr (body, e₁) ↦ elim (Option-cases (fs.unbase64 body.certificate)) [
      | inl bad ↦ absurd (ground (arith, h, e₁, bad))
      | inr (der, e₂) ↦ elim (Option-cases (fs.parse_certificate der)) [
        | inl bad ↦ absurd (ground (arith, h, e₁, e₂, bad))
        | inr (found, e₃) ↦
            let low : int_leb (pos 0) body.reason ≡ true = ground (arith, h, e₁, e₂, e₃) in
            let high : int_leb body.reason (pos 10) ≡ true = ground (arith, h, e₁, e₂, e₃) in
            let same : body.reason ≡ reason = ground (arith, h, e₁, e₂, e₃, low, high) in
            (
              h,
              ap (int_leb (pos 0)) (sym same) ∙ low,
              ap (λ r. int_leb r (pos 10)) (sym same) ∙ high,
            )
      ]
    ]
  ]

  report_revoke_ca :
      (f : Fault) (serial actor : String) (r : Result CaError (Unit {0})) (s : Desk)
      → (report_revoke fs f serial actor r s).1.ca ≡ s.ca
  report_revoke_ca f serial actor (err e) s = refl
  report_revoke_ca fine serial actor (ok _) s = refl
  report_revoke_ca refused serial actor (ok _) s = refl
  report_revoke_ca ghost serial actor (ok _) s = refl

  -- A request to revoke changes nothing, or the requester is entitled to revoke the certificate that it
  -- has sent, and the engine is as its Revoke of that certificate's serial leaves it.
  pub handle_revoke-IsEntitled :
      (c : RevokeCall) (tenant : String) (req : JwsRequest) (s : Desk)
      → let (answer, s') = handle_revoke fs c tenant req s in
        ((s' ≡ s) × (answer ≢ ok tt))
        ⊎ ((cert : ParsedCert) × (reason : ℤ) × IsNamed req.payload cert reason
            × IsEntitled req cert s
            × (s'.ca ≡ (revoke c.on_update c.on_ca_log c.now tenant cert.serial reason s.ca).1))
  unfolding handle_revoke plan_revoke
  handle_revoke-IsEntitled c tenant req s = elim (Result-cases (open_revoke fs req.payload)) [
    | inl (e, bad) ↦ inl (ground (arith, bad), λ h. ground (arith, h, bad))
    | inr ((cert, reason), opened) ↦
        elim (Result-cases (revoker fs c.on_scan req req.account cert s.certs.docs)) [
          | inl (e, bad) ↦ inl (ground (arith, opened, bad), λ h. ground (arith, h, opened, bad))
          | inr (actor, entitled) ↦ inr (
            cert,
            reason,
            open_revoke-IsNamed req.payload cert reason opened,
            revoker-IsEntitled c.on_scan req req.account cert s actor refl entitled,
            rw (handle_revoke, plan_revoke, opened, entitled)
                (report_revoke_ca c.on_log cert.serial actor _ _),
          )
        ]
  ]
