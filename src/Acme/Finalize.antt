-- ===== src/Acme/Finalize.antt =====
-- internal/acme/order.go: finalizing an order, which issues its certificate, and serving it.
pub mod Admitted
pub mod Filed
use mnemoca.Prelude.{
  ℕ, ℤ, pos, String, Bool, true, false, Option, none, some, List, [], ◌∷◌, ◌++◌, Result, ok, err,
  ◌>>=◌, ◌>>◌, guard, some_or, map, if◌then◌else◌, str_eq,
}
use mnemoca.Store.Fault.{Fault, StoreError, commit, unavailable}
use mnemoca.Store.Bucket.{Bucket, get, put}
use mnemoca.Audit.Record.{Bytes}
use mnemoca.Ca.State.{CaState}
use mnemoca.Ca.Issue.{Csr, IssueRequest, CaError}
use mnemoca.Ca.Issuing.{Cert, Pki}
use mnemoca.Ca.Request.{Weather, issue}
use mnemoca.Acme.Names.{CsrNames, CsrError, check_csr_identifiers}
use mnemoca.Acme.Orders.{Order, Status}
use mnemoca.Acme.Problem.{AcmeError, errf, in_store, malformed, Account}
use mnemoca.Acme.Accounts.{AcmeEvent}

pub record StoredCert : Type 0 where
  pub id : String
  pub account_id : String
  pub serial : String
  pub chain_pem : Bytes
  pub created_at : ℕ

-- A CSR as the engine reads it, and its names.
pub record ParsedCsr : Type 0 where
  pub csr : Csr
  pub names : CsrNames

-- json.Unmarshal and the base64 decoding of the body, parsing a CSR, and the PEM of a chain.
pub record CsrForms : Type 0 where
  pub body_csr : Bytes → Option String
  pub unbase64 : String → Option Bytes
  pub parse_csr : Bytes → Option ParsedCsr
  pub chain_pem : Cert → Bytes

-- the documents of one tenant, and the engine's
pub record Desk : Type 0 where
  pub orders : Bucket Order
  pub certs : Bucket StoredCert
  pub ca : CaState
  pub log : List AcmeEvent

-- What a call meets: the clock, a random id, what the engine meets, and the ends of the order's read,
-- the certificate's write, the order's write, and that of the audit record.
pub record DeskCall : Type 0 where
  pub now : ℕ
  pub fresh_id : String
  pub weather : Weather
  pub on_order : Fault
  pub on_cert : Fault
  pub on_update : Fault
  pub on_log : Fault

abbrev pub order_error : StoreError → AcmeError
order_error StoreError.not_found = errf 404 "malformed"
order_error StoreError.empty_path = in_store StoreError.empty_path
order_error StoreError.unavailable = in_store StoreError.unavailable

-- is the account there, and the owner
abbrev pub is_owner : Option Account → String → Bool
is_owner none owner = false
is_owner (some a) owner = str_eq owner a.id

abbrev pub if_owned : Option Account → Result StoreError Order → Result AcmeError Order
if_owned a (err e) = err (order_error e)
if_owned a (ok o) = if is_owner a o.account_id then ok o else err (errf 403 "unauthorized")

unfoldable pub load_order : Fault → Option Account → String → Bucket Order → Result AcmeError Order
unfolding get
load_order f account id orders = if_owned account (get f id orders)

abbrev pub is_ready : Status → Bool
is_ready Status.ready = true
is_ready Status.pending = false
is_ready Status.valid = false
is_ready Status.invalid = false

abbrev pub bad_csr : AcmeError
bad_csr = errf 400 "badCSR"

abbrev pub names_checked : Result CsrError (Unit {0}) → Result AcmeError (Unit {0})
names_checked (ok _) = ok tt
names_checked (err e) = err bad_csr

abbrev pub account_id : Option Account → String
account_id none = ""
account_id (some a) = a.id

module _ (fs : CsrForms) (pki : Pki) where
  -- all that comes before the issuance
  unfoldable pub admit :
      DeskCall → Option Account → String → Bytes → Desk → Result AcmeError (Order × ParsedCsr)
  unfolding load_order check_csr_identifiers
  admit c account id payload s = do
    o ← load_order c.on_order account id s.orders
    guard (is_ready o.status) (errf 403 "orderNotReady")
    body ← some_or malformed (fs.body_csr payload)
    der ← some_or bad_csr (fs.unbase64 body)
    parsed ← some_or bad_csr (fs.parse_csr der)
    guard parsed.csr.signature_valid bad_csr
    names_checked (check_csr_identifiers parsed.names o.identifiers)
    ok (o, parsed)

  abbrev pub request_of : String → ParsedCsr → IssueRequest
  request_of tenant parsed = record {
    tenant = tenant;
    profile = "default";
    csr = some parsed.csr;
    validity = pos 0;
    chain = "";
    experimental_composite = false;
  }

  abbrev pub stored_of : DeskCall → Option Account → Cert → StoredCert
  stored_of c account cert = record {
    id = c.fresh_id;
    account_id = account_id account;
    serial = cert.template.serial;
    chain_pem = fs.chain_pem cert;
    created_at = c.now;
  }

  -- the two writes and the audit record after an issuance
  unfoldable pub file_cert :
      DeskCall → Option Account → Order → Cert → Desk → Result AcmeError Order × Desk
  unfolding put
  file_cert c account o cert s =
      let (r, certs) = put c.on_cert c.fresh_id (stored_of c account cert) s.certs in
      let s' = record s { certs = certs } in
      let done : Order = record o { status = Status.valid; cert_id = c.fresh_id } in
      elim r [
        | err e ↦ (err (in_store e), s')
        | ok _ ↦
            let (r', orders) = put c.on_update o.id done s'.orders in
            let s'' = record s' { orders = orders } in
            elim r' [
              | err e ↦ (err (in_store e), s'')
              | ok _ ↦
                  let event : AcmeEvent = record {
                    action = "acme.order.finalize";
                    actor = account_id account;
                    object = o.id;
                  } in
                  commit c.on_log (in_store StoreError.unavailable) done s''
                    (record s'' { log = s''.log ++ event ∷ [] })
            ]
      ]

  -- `issued[0]`: the certificate of the first chain
  abbrev pub file_first :
      DeskCall
      → Option Account
      → Order
      → Result CaError (List Cert)
      → Desk
      → Result AcmeError Order × Desk
  unfolding file_cert
  file_first c account o (err e) s = (err (errf 403 "badCSR"), s)
  file_first c account o (ok []) s = (err (errf 500 "serverInternal"), s)
  file_first c account o (ok (cert ∷ certs)) s = file_cert c account o cert s

  -- the part of handleFinalize after its checks, on the order as it was read
  unfoldable pub finalize_admitted :
      DeskCall → String → Option Account → Order → ParsedCsr → Desk → Result AcmeError Order × Desk
  unfolding file_first issue
  finalize_admitted c tenant account o parsed s =
      let (issued, ca) = issue pki c.weather (request_of tenant parsed) s.ca in
      file_first c account o issued (record s { ca = ca })

  unfoldable pub handle_finalize :
      DeskCall → String → Option Account → String → Bytes → Desk → Result AcmeError Order × Desk
  unfolding admit finalize_admitted
  handle_finalize c tenant account id payload s = elim (admit c account id payload s) [
    | err e ↦ (err e, s)
    | ok (o, parsed) ↦ finalize_admitted c tenant account o parsed s
  ]

  abbrev pub if_mine : Option Account → Result StoreError StoredCert → Result AcmeError Bytes
  if_mine a (err e) = err (order_error e)
  if_mine a (ok sc) =
      if is_owner a sc.account_id then ok sc.chain_pem else err (errf 403 "unauthorized")

  unfoldable pub handle_cert : Fault → Option Account → String → Desk → Result AcmeError Bytes
  unfolding get
  handle_cert f account id s = if_mine account (get f id s.certs)
