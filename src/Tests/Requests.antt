-- ===== src/Tests/Requests.antt =====
-- The theorems on ACME requests and accounts, applied under a toy codec.
use Prim.Native.String.{String, len}
use mnemoca.Prelude.{
  remove, insert, false, true, none, some, [], ◌∷◌, ok, ◌≢◌, refl, length, ◌==◌, lookup,
}
use mnemoca.Store.Fault.{fine}
use mnemoca.Store.Bucket.{take, Bucket, empty}
use mnemoca.Acme.Problem.{Account}
use mnemoca.Acme.Keys.{jwk_thumbprint, verify_jws_signature, parse_jwk, Codec, okp}
use mnemoca.Acme.Nonces.{consume_nonce, NonceRec}
use mnemoca.Acme.Requests.{Wire, HttpRequest, FlatJws, JwsRequest, Visit, verify_request}
use mnemoca.Acme.Requests.Verified.{IsVerified, verify_request-IsVerified, verify_request_once}
use mnemoca.Acme.Accounts.{Forms, Accounts, AccountCall, handle_new_account}
use mnemoca.Acme.Accounts.System.{
  no_accounts, IsAccepted, Reachable, start, offered, IsSound, reachable-AllSound,
}
use mnemoca.Acme.Accounts.{create_eab_key}
use mnemoca.Tests.Toy.{zeros}

-- A text decodes to as many zeros as it is long, and a signature of three bytes is valid.
abbrev pub codec : Codec
codec = record {
  unjson_jwk = λ s. some (record {
    kty = "OKP";
    crv = "Ed25519";
    x = "0123456789abcdef0123456789abcdef";
    y = "";
    n = "";
    e = "";
  });
  unbase64 = λ s. some (zeros (len s));
  base64 = λ b. "t";
  quote = λ s. s;
  utf8 = λ s. zeros (len s);
  sha256 = λ b. b;
  on_curve = λ b. true;
  ecdsa_verify = λ x y h r s. true;
  rsa_verify = λ n e h s. true;
  ed25519_verify = λ k m s. length s == 3;
}

abbrev jws : FlatJws
jws = record { protected = "header"; payload = "body"; signature = "sig" }

abbrev wire : Wire
wire = record {
  media_type = λ s. some s;
  unjson_jws = λ b. some jws;
  unjson_header = λ b. some (record {
    alg = "EdDSA";
    nonce = "n1";
    url = "https://ca/new-account";
    jwk = "{}";
    kid = "";
  });
}

abbrev visit : Visit
visit = record {
  now = 5;
  on_nonce = fine;
  on_account = fine;
  account_prefix = "https://ca/account/";
  allow_jwk = true;
}

abbrev post : HttpRequest
post = record {
  content_type = "application/jose+json";
  url = "https://ca/new-account";
  body = some (1 ∷ 2 ∷ []);
}

abbrev nonces : Bucket NonceRec
nonces = record { docs = ("n1", record { expires = 10 }) ∷ []; seq = 0 }

abbrev verified : JwsRequest
verified = record {
  payload = zeros 4;
  account = none;
  jwk = "{}";
  key = okp (zeros 32);
  thumb = "t";
}

verify_request-IsVerified_example : IsVerified codec wire visit post empty nonces empty verified
unfolding verify_request consume_nonce take lookup parse_jwk jwk_thumbprint verify_jws_signature
    remove
verify_request-IsVerified_example =
    verify_request-IsVerified codec wire visit post empty nonces verified refl

verify_request_once_example :
    (verify_request codec wire visit post empty
      (verify_request codec wire visit post empty nonces).1).0
    ≢ ok verified
unfolding verify_request consume_nonce take lookup parse_jwk jwk_thumbprint verify_jws_signature
verify_request_once_example =
    verify_request_once codec wire visit visit post empty empty nonces verified verified refl

abbrev forms : Forms
forms = record {
  unjson_new_account =
      λ b. some (record { contact = []; only_return_existing = false; binding = 1 ∷ [] });
  unjson_update = λ b. none;
  unjson_eab_header = λ b. some (record { alg = "HS256"; kid = "e1"; url = "" });
  hmac = λ k m. zeros 3;
  text = λ b. "{}";
}

abbrev accounts : Accounts
accounts = record {
  accounts = empty;
  eab = record { docs = ("e1", record { kid = "e1"; key = 7 ∷ []; created_at = 0 }) ∷ []; seq = 0 };
  log = [];
}

abbrev call : AccountCall
call = record {
  now = 5;
  fresh_id = "a1";
  on_scan = fine;
  on_eab = fine;
  on_put = fine;
  on_log = fine;
}

abbrev registered : Account
registered = record {
  id = "a1";
  thumbprint = "t";
  jwk = "{}";
  contact = [];
  status = "valid";
  eab = "e1";
  created_at = 5;
}

abbrev offer : Accounts
offer = (create_eab_key codec wire forms fine 0 "e1" (7 ∷ []) no_accounts).1

abbrev offered_reachable : Reachable codec wire forms true "https://ca/new-account" offer
offered_reachable = offered no_accounts fine 0 "e1" (7 ∷ []) start

abbrev accepted : IsAccepted codec wire offer.accounts verified
unfolding verify_request consume_nonce take lookup parse_jwk jwk_thumbprint verify_jws_signature
accepted = (visit, post, nonces, refl)

reachable-AllSound_example : IsSound codec wire forms "a1" registered
unfolding handle_new_account lookup jwk_thumbprint insert create_eab_key
reachable-AllSound_example =
    reachable-AllSound codec wire forms true "https://ca/new-account"
      (handle_new_account codec wire forms call true "https://ca/new-account" verified offer).1
      (Reachable.registered offer offer call verified offered_reachable offered_reachable accepted)
      "a1" registered refl
