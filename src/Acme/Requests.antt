-- ===== src/Acme/Requests.antt =====
-- internal/acme/jws.go: what makes a POST a verified request.
pub mod Signer
pub mod Verified
use Prim.Native.String.{◌++◌ as text_append}
use mnemoca.Prelude.{
  ℕ, String, Bool, true, false, ◌&&◌, ◌||◌, not, Option, none, some, List, Result, ok, err, ◌>>=◌,
  ◌>>◌, guard, some_or, if◌then◌else◌, str_eq, take, cut_prefix,
}
use mnemoca.Store.Fault.{Fault, StoreError}
use mnemoca.Store.Bucket.{Bucket, get}
use mnemoca.Audit.Record.{Bytes}
use mnemoca.Acme.Problem.{AcmeError, errf, in_store, malformed, Account}
use mnemoca.Acme.Keys.{Codec, PublicKey, parse_jwk, jwk_thumbprint, verify_jws_signature}
use mnemoca.Acme.Nonces.{NonceRec, consume_nonce}

pub record FlatJws : Type 0 where
  pub protected : String
  pub payload : String
  pub signature : String

-- a member that is absent is empty
pub record JwsProtected : Type 0 where
  pub alg : String
  pub nonce : String
  pub url : String
  pub jwk : String
  pub kid : String

-- mime.ParseMediaType and json.Unmarshal.
pub record Wire : Type 0 where
  pub media_type : String → Option String
  pub unjson_jws : Bytes → Option FlatJws
  pub unjson_header : Bytes → Option JwsProtected

-- `url` is the one that the server was reached at, `body` none if it cannot be read
pub record HttpRequest : Type 0 where
  pub content_type : String
  pub url : String
  pub body : Option Bytes

pub record JwsRequest : Type 0 where
  pub payload : Bytes
  pub account : Option Account
  pub jwk : String
  pub key : PublicKey
  pub thumb : String

abbrev pub max_body_bytes : ℕ
max_body_bytes = 1048576

-- What a request meets: the clock, the ends of the reads of the nonce and of the account, and the
-- prefix of the tenant's account URLs.
pub record Visit : Type 0 where
  pub now : ℕ
  pub on_nonce : Fault
  pub on_account : Fault
  pub account_prefix : String
  pub allow_jwk : Bool

abbrev pub unauthorized : AcmeError
unauthorized = errf 401 "unauthorized"

module _ (l : Codec) (w : Wire) where
  -- the part before the nonce is used
  unfoldable pub open_request : HttpRequest → Result AcmeError (FlatJws × JwsProtected)
  open_request r = do
    mt ← some_or (errf 415 "malformed") (w.media_type r.content_type)
    guard (str_eq mt "application/jose+json") (errf 415 "malformed")
    body ← some_or malformed r.body
    jws ← some_or malformed (w.unjson_jws (take max_body_bytes body))
    guard (not (str_eq jws.protected "" || str_eq jws.signature "")) malformed
    header ← some_or malformed (l.unbase64 jws.protected)
    hdr ← some_or malformed (w.unjson_header header)
    guard (str_eq hdr.url r.url) unauthorized
    ok (jws, hdr)

  abbrev pub account_error : StoreError → AcmeError
  account_error StoreError.not_found = errf 400 "accountDoesNotExist"
  account_error StoreError.empty_path = in_store StoreError.empty_path
  account_error StoreError.unavailable = in_store StoreError.unavailable

  abbrev pub if_valid : Result StoreError Account → Result AcmeError Account
  if_valid (err e) = err (account_error e)
  if_valid (ok acct) = if str_eq acct.status "valid" then ok acct else err unauthorized

  unfoldable pub account_by_kid : Visit → String → Bucket Account → Result AcmeError Account
  unfolding get
  account_by_kid v kid accounts = do
    id ← some_or malformed (cut_prefix v.account_prefix kid)
    if_valid (get v.on_account id accounts)

  -- who signs: a bare key, or a stored account with its key
  unfoldable pub signer_of :
      Visit → JwsProtected → Bucket Account → Result AcmeError (Option Account × String)
  unfolding account_by_kid
  signer_of v hdr accounts =
      if str_eq hdr.jwk ""
      then if str_eq hdr.kid ""
        then err malformed
        else (account_by_kid v hdr.kid accounts >>= λ acct. ok (some acct, acct.jwk))
      else if str_eq hdr.kid "" && v.allow_jwk
      then ok (none, hdr.jwk)
      else err malformed

  -- the part after the nonce is used
  unfoldable pub check_signed :
      Visit → FlatJws → JwsProtected → Bucket Account → Result AcmeError JwsRequest
  unfolding signer_of
  check_signed v jws hdr accounts = do
    (account, jwk) ← signer_of v hdr accounts
    key ← parse_jwk l jwk
    thumb ← jwk_thumbprint l jwk
    sig ← some_or malformed (l.unbase64 jws.signature)
    verify_jws_signature l hdr.alg key
        (l.utf8 (text_append jws.protected (text_append "." jws.payload))) sig
    payload ← some_or malformed (l.unbase64 jws.payload)
    ok (record { payload = payload; account = account; jwk = jwk; key = key; thumb = thumb })

  -- the outcome of the nonce's use
  abbrev pub if_fresh :
      Result StoreError Bool → Result AcmeError JwsRequest → Result AcmeError JwsRequest
  if_fresh (err e) next = err (in_store e)
  if_fresh (ok false) next = err (errf 400 "badNonce")
  if_fresh (ok true) next = next

  unfoldable pub verify_request :
      Visit
      → HttpRequest
      → Bucket Account
      → Bucket NonceRec
      → Result AcmeError JwsRequest × Bucket NonceRec
  unfolding open_request check_signed
  verify_request v r accounts nonces = elim (open_request r) [
    | err e ↦ (err e, nonces)
    | ok (jws, hdr) ↦
        let (fresh, nonces') = consume_nonce v.on_nonce v.now hdr.nonce nonces in
        (if_fresh fresh (check_signed v jws hdr accounts), nonces')
  ]
