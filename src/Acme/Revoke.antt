-- ===== src/Acme/Revoke.antt =====
-- internal/acme/order.go: requests to revoke a certificate.
pub mod Entitled
pub mod Forged
use Prim.Native.String.{◌++◌ as text_append}
use mnemoca.Prelude.{
  ℕ, ℤ, pos, String, Bool, true, false, ◌&&◌, ◌||◌, Option, none, some, List, [], ◌∷◌, ◌++◌, Dict,
  Result, ok, err, ◌>>=◌, ◌>>◌, guard, some_or, if◌then◌else◌, str_eq, int_leb,
}
use mnemoca.Store.Fault.{Fault, StoreError, commit}
use mnemoca.Store.Bucket.{Bucket}
use mnemoca.Audit.Record.{Bytes}
use mnemoca.Ca.State.{CaState}
use mnemoca.Ca.Issue.{CaError, revoke}
use mnemoca.Acme.Problem.{AcmeError, errf, in_store, malformed, Account}
use mnemoca.Acme.Keys.{PublicKey}
use mnemoca.Acme.Requests.{JwsRequest}
use mnemoca.Acme.Accounts.{AcmeEvent}
use mnemoca.Acme.Finalize.{StoredCert, Desk}

pub record RevokeBody : Type 0 where
  pub certificate : String
  pub reason : ℤ

-- A certificate as it was parsed: its serial number in decimal, and its key.
pub record ParsedCert : Type 0 where
  pub serial : String
  pub public_key : PublicKey

-- json.Unmarshal of the body, base64, parsing a certificate, and the Equal of public keys.
pub record RevokeForms : Type 0 where
  pub unjson_body : Bytes → Option RevokeBody
  pub unbase64 : String → Option Bytes
  pub parse_certificate : Bytes → Option ParsedCert
  pub same_key : PublicKey → PublicKey → Bool

-- What a call meets: the clock, and the ends of the scan of the certificates, of the engine's update
-- and audit record, and of the server's audit record.
pub record RevokeCall : Type 0 where
  pub now : ℕ
  pub on_scan : Fault
  pub on_update : Fault
  pub on_ca_log : Fault
  pub on_log : Fault

-- does the account have a stored certificate with the serial
unfoldable pub owns : String → String → Dict StoredCert → Bool
owns serial account [] = false
owns serial account ((_, sc) ∷ docs) =
    let rest = owns serial account docs in
    str_eq sc.serial serial && str_eq sc.account_id account || rest

abbrev pub scanned : Fault → Bool → Result AcmeError (Unit {0})
scanned Fault.fine owned = guard owned (errf 403 "unauthorized")
scanned Fault.refused owned = err (in_store StoreError.unavailable)
scanned Fault.ghost owned = err (in_store StoreError.unavailable)

abbrev pub revoke_problem : CaError → AcmeError
revoke_problem CaError.already_revoked = errf 400 "alreadyRevoked"
revoke_problem CaError.unknown_certificate = errf 404 "malformed"
revoke_problem _ = in_store StoreError.unavailable

module _ (fs : RevokeForms) where
  -- the serial and the reason that a request asks for, and the key of its certificate
  unfoldable pub open_revoke : Bytes → Result AcmeError (ParsedCert × ℤ)
  open_revoke payload = do
    body ← some_or malformed (fs.unjson_body payload)
    der ← some_or malformed (fs.unbase64 body.certificate)
    cert ← some_or malformed (fs.parse_certificate der)
    guard (int_leb (pos 0) body.reason && int_leb body.reason (pos 10))
        (errf 400 "badRevocationReason")
    ok (cert, body.reason)

  -- who revokes: an account that has ordered the certificate, or the certificate's key
  abbrev pub revoker :
      Fault → JwsRequest → Option Account → ParsedCert → Dict StoredCert → Result AcmeError String
  unfolding owns
  revoker f req (some acct) cert docs =
      (scanned f (owns cert.serial acct.id docs) >>= λ _. ok acct.id)
  revoker f req none cert docs =
      if fs.same_key req.key cert.public_key
      then ok (text_append "key:" req.thumb)
      else err (errf 403 "unauthorized")

  unfoldable pub plan_revoke :
      RevokeCall → JwsRequest → Desk → Result AcmeError (ParsedCert × ℤ × String)
  unfolding open_revoke revoker
  plan_revoke c req s = do
    (cert, reason) ← open_revoke req.payload
    actor ← revoker c.on_scan req req.account cert s.certs.docs
    ok (cert, reason, actor)

  abbrev pub report_revoke :
      Fault
      → String
      → String
      → Result CaError (Unit {0})
      → Desk
      → Result AcmeError (Unit {0}) × Desk
  report_revoke f serial actor (err e) s = (err (revoke_problem e), s)
  report_revoke f serial actor (ok _) s =
      let event : AcmeEvent = record {
        action = "acme.cert.revoke";
        actor = actor;
        object = serial;
      } in
      commit f (in_store StoreError.unavailable) tt s (record s { log = s.log ++ event ∷ [] })

  unfoldable pub handle_revoke :
      RevokeCall → String → JwsRequest → Desk → Result AcmeError (Unit {0}) × Desk
  unfolding plan_revoke revoke
  handle_revoke c tenant req s = elim (plan_revoke c req s) [
    | err e ↦ (err e, s)
    | ok (cert, reason, actor) ↦
        let (r, ca) = revoke c.on_update c.on_ca_log c.now tenant cert.serial reason s.ca in
        report_revoke c.on_log cert.serial actor r (record s { ca = ca })
  ]
