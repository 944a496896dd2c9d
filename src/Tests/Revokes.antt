-- ===== src/Tests/Revokes.antt =====
-- The theorems on requests to revoke, applied.
use mnemoca.Prelude.{ℤ, pos, Bool, false, none, some, [], ◌∷◌, ok, ◌≡◌, ◌≢◌, refl, ◌⊎◌, lookup}
use mnemoca.Store.Fault.{fine}
use mnemoca.Store.Bucket.{empty}
use mnemoca.Ca.State.{CertRecord, CaState}
use mnemoca.Ca.Issue.{revoke}
use mnemoca.Api.Tokens.{same_bytes}
use mnemoca.Acme.Keys.{PublicKey, ec, rsa, okp}
use mnemoca.Acme.Requests.{JwsRequest}
use mnemoca.Acme.Finalize.{Desk}
use mnemoca.Acme.Revoke.{ParsedCert, RevokeForms, handle_revoke, open_revoke}
use mnemoca.Acme.Revoke.Entitled.{IsNamed, IsEntitled, handle_revoke-IsEntitled}
use mnemoca.Acme.Revoke.Forged.{fair, marked, forged_revoke}

-- the certificate that the requester has made, under the serial of another
abbrev made : ParsedCert
made = record { serial = "77"; public_key = okp (1 ∷ []) }

abbrev same : PublicKey → PublicKey → Bool
same (okp x) (okp y) = same_bytes x y
same (okp x) (ec y z) = false
same (okp x) (rsa n e) = false
same (ec x y) k = false
same (rsa n e) k = false

abbrev forms : RevokeForms
forms = record {
  unjson_body = λ b. some (record { certificate = "der"; reason = pos 1 });
  unbase64 = λ s. some [];
  parse_certificate = λ b. some made;
  same_key = same;
}

abbrev request : JwsRequest
request = record { payload = 1 ∷ []; account = none; jwk = "{}"; key = okp (1 ∷ []); thumb = "t" }

abbrev issued : CertRecord
issued = record {
  serial = "77";
  tenant = "acme";
  profile = "default";
  chain = "primary";
  subject_cn = "a.example";
  sans = "a.example" ∷ [];
  key_alg = "ed25519";
  sig_alg = "ed25519";
  not_before = pos 0;
  not_after = pos 90;
  pem = 5 ∷ [];
  revoked = false;
  revoked_at = 0;
  reason_code = pos 0;
}

abbrev engine : CaState
engine = record {
  tenants = empty;
  certs = λ t. record { docs = ("77", issued) ∷ []; seq = 0 };
  crls = λ t. empty;
  log = [];
}

abbrev desk : Desk
desk = record { orders = empty; certs = empty; ca = engine; log = [] }

handle_revoke-IsEntitled_example :
    let (answer, s') = handle_revoke forms (fair 9) "acme" request desk in
    ((s' ≡ desk) × (answer ≢ ok tt))
    ⊎ ((cert : ParsedCert) × (reason : ℤ) × IsNamed forms request.payload cert reason
        × IsEntitled forms request cert desk
        × (s'.ca ≡ (revoke fine fine 9 "acme" cert.serial reason engine).1))
handle_revoke-IsEntitled_example = handle_revoke-IsEntitled forms (fair 9) "acme" request desk

forged_revoke_example :
    let (answer, s') = handle_revoke forms (fair 9) "acme" request desk in
    (answer ≡ ok tt) × (lookup "77" (s'.ca.certs "acme").docs ≡ some (marked 9 (pos 1) issued))
unfolding open_revoke lookup same_bytes
forged_revoke_example =
    forged_revoke forms 9 "acme" request desk made (pos 1) issued refl refl refl refl refl
