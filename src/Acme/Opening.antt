-- ===== src/Acme/Opening.antt =====
-- internal/acme/order.go: opening an order, with its authorizations and their challenges.
pub mod Places
pub mod Authzs
pub mod Checked
pub mod Opened
use mnemoca.Prelude.{
  ℕ, ◌+◌, String, Bool, true, false, not, Option, none, some, List, [], ◌∷◌, ◌++◌, Result, ok, err,
  ◌>>=◌, ◌>>◌, guard, some_or, if◌then◌else◌, str_eq, cut_prefix,
}
use mnemoca.Store.Fault.{Fault, StoreError, commit}
use mnemoca.Store.Bucket.{put}
use mnemoca.Audit.Record.{Bytes}
use mnemoca.Acme.Problem.{AcmeError, errf, in_store, malformed, Account}
use mnemoca.Acme.Accounts.{AcmeEvent}
use mnemoca.Acme.Orders.{Authz, Order, Status}
use mnemoca.Acme.Challenges.{Challenge, Trials}

pub record Identifier : Type 0 where
  pub typ : String
  pub value : String

-- 24 hours
abbrev pub order_ttl : ℕ
order_ttl = 86400

-- The random values for one authorization and its challenges, and the ends of their writes.
pub record AuthzCall : Type 0 where
  pub authz_id : String
  pub http_id : String
  pub http_token : String
  pub dns_id : String
  pub dns_token : String
  pub on_http : Fault
  pub on_dns : Fault
  pub on_authz : Fault

-- What a call meets: the clock, the order's random id, what each authorization meets by its place, and
-- the ends of the writes of the order and of the audit record.
pub record OrderCall : Type 0 where
  pub now : ℕ
  pub fresh_id : String
  pub authz_calls : ℕ → AuthzCall
  pub on_order : Fault
  pub on_log : Fault

pub record Opening : Type 0 where
  pub trials : Trials
  pub log : List AcmeEvent

-- the values of the identifiers, each of type dns and not empty
unfoldable pub check_identifiers : List Identifier → Result AcmeError (List String)
check_identifiers [] = ok []
check_identifiers (i ∷ is) = do
  guard (str_eq i.typ "dns") (errf 400 "unsupportedIdentifier")
  guard (not (str_eq i.value "")) malformed
  names ← check_identifiers is
  ok (i.value ∷ names)

-- an order names at least one identifier
abbrev pub checked_body : List Identifier → Result AcmeError (List String)
unfolding check_identifiers
checked_body [] = err malformed
checked_body (i ∷ is) = check_identifiers (i ∷ is)

-- strings.HasPrefix(name, "*.")
abbrev pub is_wildcard : Option String → Bool
is_wildcard none = false
is_wildcard (some rest) = true

unfoldable pub store_challenge :
    Fault → String → String → String → String → Trials → Result AcmeError (List String) × Trials
unfolding put
store_challenge f id authz_id typ token s =
    let ch : Challenge = record {
      id = id;
      authz_id = authz_id;
      typ = typ;
      token = token;
      status = Status.pending;
      validated = none;
      error = none;
    } in
    let (r, b) = put f id ch s.challenges in
    (elim r [ err e ↦ err (in_store e) | ok _ ↦ ok (id ∷ []) ], record s { challenges = b })

-- the http-01 challenge, unless the name is a wildcard, and the dns-01 challenge; with their ids
unfoldable pub open_challenges : AuthzCall → Bool → Trials → Result AcmeError (List String) × Trials
unfolding store_challenge
open_challenges c true s = store_challenge c.on_dns c.dns_id c.authz_id "dns-01" c.dns_token s
open_challenges c false s =
    let (r, s') = store_challenge c.on_http c.http_id c.authz_id "http-01" c.http_token s in
    elim r [
      | err e ↦ (err e, s')
      | ok ids ↦
          let (r', s'') = store_challenge c.on_dns c.dns_id c.authz_id "dns-01" c.dns_token s' in
          (r' >>= λ ids'. ok (ids ++ ids'), s'')
    ]

abbrev pub authz_of : AuthzCall → Order → String → List String → Authz
authz_of c o name ids = record {
  id = c.authz_id;
  order_id = o.id;
  account_id = o.account_id;
  identifier = name;
  status = Status.pending;
  expires = o.expires;
  challenge_ids = ids;
}

unfoldable pub open_authz : AuthzCall → Order → String → Trials → Result AcmeError String × Trials
unfolding open_challenges put cut_prefix
open_authz c o name s =
    let (r, s') = open_challenges c (is_wildcard (cut_prefix "*." name)) s in
    elim r [
      | err e ↦ (err e, s')
      | ok ids ↦
          let (r', b) = put c.on_authz c.authz_id (authz_of c o name ids) s'.authzs in
          (elim r' [ err e ↦ err (in_store e) | ok _ ↦ ok c.authz_id ], record s' { authzs = b })
    ]

-- the authorizations of the identifiers from the place `i` on
unfoldable pub open_authzs :
    (ℕ → AuthzCall) → ℕ → Order → List String → Trials → Result AcmeError (List String) × Trials
unfolding open_authz
open_authzs calls i o [] s = (ok [], s)
open_authzs calls i o (name ∷ names) s =
    let (r, s') = open_authz (calls i) o name s in
    let (rs, s'') = open_authzs calls (i + 1) o names s' in
    elim r [ err e ↦ (err e, s') | ok id ↦ (rs >>= λ ids. ok (id ∷ ids), s'') ]

abbrev pub order_of : OrderCall → Account → List String → Order
order_of c acct names = record {
  id = c.fresh_id;
  account_id = acct.id;
  status = Status.pending;
  expires = c.now + order_ttl;
  identifiers = names;
  authz_ids = [];
  cert_id = "";
  error = none;
}

-- the write of the order, and its audit record
unfoldable pub store_order : OrderCall → Order → Opening → Result AcmeError Order × Opening
unfolding put
store_order c o s =
    let (r, b) = put c.on_order o.id o s.trials.orders in
    let s' = record s { trials = record s.trials { orders = b } } in
    elim r [
      | err e ↦ (err (in_store e), s')
      | ok _ ↦
          let event : AcmeEvent = record {
            action = "acme.order.new";
            actor = o.account_id;
            object = o.id;
          } in
          commit c.on_log (in_store StoreError.unavailable) o s'
            (record s' { log = s'.log ++ event ∷ [] })
    ]

-- `body` is what json.Unmarshal makes of the payload; the request is an account's.
unfoldable pub handle_new_order :
    OrderCall → Account → Option (List Identifier) → Opening → Result AcmeError Order × Opening
unfolding checked_body open_authzs store_order
handle_new_order c acct body s = elim (some_or malformed body >>= checked_body) [
  | err e ↦ (err e, s)
  | ok names ↦
      let o = order_of c acct names in
      let (r, trials) = open_authzs c.authz_calls 0 o names s.trials in
      let s' = record s { trials = trials } in
      elim r [ err e ↦ (err e, s') | ok ids ↦ store_order c (record o { authz_ids = ids }) s' ]
]
