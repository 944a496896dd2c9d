-- ===== src/Acme/Accounts.antt =====
-- internal/acme/account.go: accounts, and the binding of a new account to an external key.
pub mod Contacts
pub mod Stored
pub mod Bound
pub mod System
use Prim.Native.String.{◌++◌ as text_append}
use mnemoca.Prelude.{
  ℕ, String, Bool, true, false, ◌&&◌, ◌||◌, not, Option, none, some, List, [], ◌∷◌, ◌++◌, Dict,
  insert, Result, ok, err, ◌>>=◌, ◌>>◌, guard, some_or, if◌then◌else◌, str_eq,
}
use mnemoca.Store.Fault.{Fault, StoreError, unavailable, commit}
use mnemoca.Store.Bucket.{Bucket, get, put}
use mnemoca.Audit.Record.{Bytes}
use mnemoca.Api.Tokens.{same_bytes}
use mnemoca.Acme.Problem.{AcmeError, errf, in_store, malformed, Account, EabKey}
use mnemoca.Acme.Keys.{Codec, jwk_thumbprint}
use mnemoca.Acme.Requests.{FlatJws, Wire, JwsRequest}

pub record EabProtected : Type 0 where
  pub alg : String
  pub kid : String
  pub url : String

-- an empty binding is an absent one; `contact` is none if it is absent
pub record NewAccount : Type 0 where
  pub contact : List String
  pub only_return_existing : Bool
  pub binding : Bytes

pub record AccountUpdate : Type 0 where
  pub contact : Option (List String)
  pub status : String

-- json.Unmarshal of the payloads, HMAC-SHA-256 of a key and a text, and a text from its bytes.
pub record Forms : Type 0 where
  pub unjson_new_account : Bytes → Option NewAccount
  pub unjson_update : Bytes → Option AccountUpdate
  pub unjson_eab_header : Bytes → Option EabProtected
  pub hmac : Bytes → Bytes → Bytes
  pub text : Bytes → String

-- An audit record of the ACME server.
pub record AcmeEvent : Type 0 where
  pub action : String
  pub actor : String
  pub object : String

pub record Accounts : Type 0 where
  pub accounts : Bucket Account
  pub eab : Bucket EabKey
  pub log : List AcmeEvent

-- What a call meets: the clock, a random id, and the ends of the read of the external key, of the
-- write of the account, and of that of the audit record.
pub record AccountCall : Type 0 where
  pub now : ℕ
  pub fresh_id : String
  pub on_scan : Fault
  pub on_eab : Fault
  pub on_put : Fault
  pub on_log : Fault

-- accountByThumbprint: the last account that the scan meets
unfoldable pub by_thumbprint : String → Option Account → Dict Account → Option Account
by_thumbprint thumb found [] = found
by_thumbprint thumb found ((_, a) ∷ docs) =
    let mine = by_thumbprint thumb (some a) docs in
    let others = by_thumbprint thumb found docs in
    if str_eq a.thumbprint thumb then mine else others

module _ (l : Codec) (w : Wire) (fs : Forms) where
  abbrev pub unbound : AcmeError
  unbound = errf 401 "unauthorized"

  abbrev pub eab_error : StoreError → AcmeError
  eab_error StoreError.not_found = unbound
  eab_error StoreError.empty_path = in_store StoreError.empty_path
  eab_error StoreError.unavailable = in_store StoreError.unavailable

  abbrev pub loaded_key : Result StoreError EabKey → Result AcmeError EabKey
  loaded_key (err e) = err (eab_error e)
  loaded_key (ok ek) = ok ek

  -- the members of a binding, decoded and checked against the URL of new-account
  unfoldable pub open_eab : String → Bytes → Result AcmeError (FlatJws × EabProtected × Bytes)
  open_eab url raw = do
    jws ← some_or malformed (w.unjson_jws raw)
    header ← some_or malformed (l.unbase64 jws.protected)
    hdr ← some_or malformed (fs.unjson_eab_header header)
    guard (str_eq hdr.alg "HS256") (errf 400 "badSignatureAlgorithm")
    guard (str_eq hdr.url "" || str_eq hdr.url url) unbound
    payload ← some_or malformed (l.unbase64 jws.payload)
    ok (jws, hdr, payload)

  unfoldable pub check_mac : EabKey → FlatJws → Result AcmeError (Unit {0})
  unfolding same_bytes
  check_mac ek jws = do
    sig ← some_or malformed (l.unbase64 jws.signature)
    guard
        (same_bytes
          (fs.hmac ek.key (l.utf8 (text_append jws.protected (text_append "." jws.payload)))) sig)
        unbound

  -- `outer` is the key that has signed the request
  unfoldable pub verify_eab :
      Fault → String → Bucket EabKey → String → Bytes → Result AcmeError String
  unfolding get open_eab check_mac
  verify_eab f url eab outer raw = do
    (jws, hdr, payload) ← open_eab url raw
    inner_thumb ← jwk_thumbprint l (fs.text payload)
    outer_thumb ← jwk_thumbprint l outer
    guard (str_eq inner_thumb outer_thumb) unbound
    ek ← loaded_key (get f hdr.kid eab)
    check_mac ek jws
    ok hdr.kid

  -- an empty payload is an empty body
  abbrev pub account_body : Bytes → Result AcmeError NewAccount
  account_body [] = ok (record { contact = []; only_return_existing = false; binding = [] })
  account_body (b ∷ bs) = some_or malformed (fs.unjson_new_account (b ∷ bs))

  -- the id of the external key, or an empty one
  abbrev pub bound_kid :
      Fault → Bool → String → Bucket EabKey → String → Bytes → Result AcmeError String
  unfolding verify_eab
  bound_kid f require_eab url eab outer [] =
      if require_eab then err (errf 400 "externalAccountRequired") else ok ""
  bound_kid f require_eab url eab outer (b ∷ bs) = verify_eab f url eab outer (b ∷ bs)

  abbrev pub account_of : AccountCall → JwsRequest → NewAccount → String → Account
  account_of c req body kid = record {
    id = c.fresh_id;
    thumbprint = req.thumb;
    jwk = req.jwk;
    contact = body.contact;
    status = "valid";
    eab = kid;
    created_at = c.now;
  }

  abbrev pub written : Result StoreError (Unit {0}) → Account → Result AcmeError Account
  written (err e) a = err (in_store e)
  written (ok _) a = ok a

  -- PutJSON of the account, then its audit record
  unfoldable pub store_account :
      AccountCall → Account → Accounts → Result AcmeError Account × Accounts
  unfolding put
  store_account c a s =
      let (r, b) = put c.on_put a.id a s.accounts in
      let s' = record s { accounts = b } in
      elim r [
        | err e ↦ (err (in_store e), s')
        | ok _ ↦
            let event : AcmeEvent = record {
              action = "acme.account.new";
              actor = a.id;
              object = a.id;
            } in
            let (logged, s'') =
              commit c.on_log StoreError.unavailable tt s'
                (record s' { log = s'.log ++ event ∷ [] }) in
            (written logged a, s'')
      ]

  -- the account that a request is answered with, and whether it is a new one
  abbrev pub if_known :
      Option Account → Bool → Result AcmeError Account → Result AcmeError (Account × Bool)
  if_known (some a) only_existing new = ok (a, false)
  if_known none true new = err (errf 400 "accountDoesNotExist")
  if_known none false (ok a) = ok (a, true)
  if_known none false (err e) = err e

  -- all that comes before the write
  unfoldable pub plan_account :
      AccountCall → Bool → String → JwsRequest → Accounts → Result AcmeError (Account × Bool)
  unfolding bound_kid by_thumbprint
  plan_account c require_eab url req s = do
    guard (elim req.account [ none ↦ true | some _ ↦ false ]) malformed
    body ← account_body req.payload
    guard (elim c.on_scan [ Fault.fine ↦ true | Fault.refused ↦ false | Fault.ghost ↦ false ])
        (in_store StoreError.unavailable)
    if_known (by_thumbprint req.thumb none s.accounts.docs) body.only_return_existing (
        bound_kid c.on_eab require_eab url s.eab req.jwk body.binding >>= λ kid.
        ok (account_of c req body kid))

  unfoldable pub handle_new_account :
      AccountCall → Bool → String → JwsRequest → Accounts → Result AcmeError Account × Accounts
  unfolding plan_account store_account
  handle_new_account c require_eab url req s = elim (plan_account c require_eab url req s) [
    | err e ↦ (err e, s)
    | ok (a, false) ↦ (ok a, s)
    | ok (a, true) ↦ store_account c a s
  ]

  -- CreateEABKey, with the random id and key
  unfoldable pub create_eab_key :
      Fault → ℕ → String → Bytes → Accounts → Result StoreError (String × String) × Accounts
  unfolding put
  create_eab_key f now kid key s =
      let (r, b) = put f kid (record { kid = kid; key = key; created_at = now }) s.eab in
      (elim r [ err e ↦ err e | ok _ ↦ ok (kid, l.base64 key) ], record s { eab = b })
