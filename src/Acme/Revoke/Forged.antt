-- ===== src/Acme/Revoke/Forged.antt =====
-- What a bare key can revoke.
use Prim.Native.String.{◌++◌ as text_append}
use mnemoca.Prelude.{
  ℕ, ℤ, String, true, false, none, some, ok, ◌≡◌, refl, lookup, lookup-insert, eq_refl,
}
use mnemoca.Store.Fault.{fine}
use mnemoca.Store.Bucket.{update}
use mnemoca.Ca.State.{CertRecord, log_ca}
use mnemoca.Ca.Issue.{revoke}
use mnemoca.Acme.Requests.{JwsRequest}
use mnemoca.Acme.Finalize.{Desk}
use mnemoca.Acme.Revoke.{
  ParsedCert, RevokeForms, RevokeCall, open_revoke, plan_revoke, handle_revoke,
}

-- every call goes through
abbrev pub fair : ℕ → RevokeCall
fair now = record { now = now; on_scan = fine; on_update = fine; on_ca_log = fine; on_log = fine }

abbrev pub marked : ℕ → ℤ → CertRecord → CertRecord
marked now reason rec = record rec { revoked = true; revoked_at = now; reason_code = reason }

module _ (fs : RevokeForms) where
  bare_plan :
      (now : ℕ) (req : JwsRequest) (s : Desk) (cert : ParsedCert) (reason : ℤ)
      → req.account ≡ none
      → open_revoke fs req.payload ≡ ok (cert, reason)
      → fs.same_key req.key cert.public_key ≡ true
      → plan_revoke fs (fair now) req s ≡ ok (cert, reason, text_append "key:" req.thumb)
  unfolding plan_revoke
  bare_plan now req s cert reason bare opened same = rw (plan_revoke, opened, bare, same) refl

  -- When every call goes through, a request by a bare key whose body is accepted, and which sends a
  -- certificate of that key, is answered as done and revokes the valid certificate that the engine has
  -- stored under the same serial in that tenant, whatever key that one is for.
  pub forged_revoke :
      (now : ℕ) (tenant : String) (req : JwsRequest) (s : Desk) (cert : ParsedCert) (reason : ℤ)
      (rec : CertRecord)
      → req.account ≡ none
      → open_revoke fs req.payload ≡ ok (cert, reason)
      → fs.same_key req.key cert.public_key ≡ true
      → lookup cert.serial (s.ca.certs tenant).docs ≡ some rec
      → rec.revoked ≡ false
      → let (answer, s') = handle_revoke fs (fair now) tenant req s in
        (answer ≡ ok tt)
        × (lookup cert.serial (s'.ca.certs tenant).docs ≡ some (marked now reason rec))
  unfolding handle_revoke revoke update log_ca
  forged_revoke now tenant req s cert reason rec bare opened same found valid =
      let planned = bare_plan now req s cert reason bare opened same in
      (
        rw (handle_revoke, planned, revoke, update, found, valid, log_ca) refl,
        rw (handle_revoke, planned, revoke, update, found, valid, log_ca, eq_refl)
            (rw (update, found, valid, lookup-insert, eq_refl) refl),
      )
