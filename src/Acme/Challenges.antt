-- ===== src/Acme/Challenges.antt =====
-- internal/acme/challenge.go: answering a challenge, which validates an authorization.
pub mod Answers
pub mod Proved
pub mod Ordered
use Prim.Native.String.{◌++◌ as text_append}
use mnemoca.Prelude.{
  ℕ, String, Bool, true, false, ◌&&◌, not, Option, none, some, List, [], ◌∷◌, Result, ok, err,
  ◌>>=◌, ◌>>◌, guard, some_or, if◌then◌else◌, ◌==◌, str_eq, contains, take, cut_prefix, trim_space,
}
use mnemoca.Store.Fault.{Fault, StoreError}
use mnemoca.Store.Bucket.{Bucket, get, put}
use mnemoca.Audit.Record.{Bytes}
use mnemoca.Acme.Problem.{AcmeError, errf, in_store, malformed, Account}
use mnemoca.Acme.Keys.{Codec}
use mnemoca.Acme.Orders.{Authz, Order, Status, update_order_status}
use mnemoca.Acme.Finalize.{is_owner}

-- why a validation has failed
pub data Failure : Type 0 where
  unsupported fetching bad_status reading mismatch looking_up no_record : Failure

pub record Challenge : Type 0 where
  pub id : String
  pub authz_id : String
  pub typ : String
  pub token : String
  pub status : Status
  pub validated : Option ℕ
  pub error : Option Failure

-- the answer of a web server; its body is none if it cannot be read
pub record Reply : Type 0 where
  pub code : ℕ
  pub body : Option Bytes

-- The network as a validation finds it: the answer under the well-known path of a host and a token, and
-- the TXT records of a name. `text` is the text of some bytes, and `is_json` is json.Valid.
pub record Network : Type 0 where
  pub fetch : String → String → Option Reply
  pub txt : String → Option (List String)
  pub text : Bytes → String
  pub is_json : Bytes → Bool

pub record Trials : Type 0 where
  pub challenges : Bucket Challenge
  pub authzs : Bucket Authz
  pub orders : Bucket Order

-- What a call meets: the clock, and the ends of its reads and writes in their order. `on_scan` has
-- those of the reads of the order's authorizations.
pub record ChallengeCall : Type 0 where
  pub now : ℕ
  pub on_challenge : Fault
  pub on_authz : Fault
  pub on_store_challenge : Fault
  pub on_store_authz : Fault
  pub on_order : Fault
  pub on_scan : String → Fault
  pub on_store_order : Fault

-- strings.TrimPrefix(name, "*.")
abbrev pub without_star : Option String → String → String
without_star none name = name
without_star (some rest) name = rest

abbrev pub judged : ℕ → Result Failure (Unit {0}) → Challenge → Challenge
judged now (err e) ch = record ch { status = Status.invalid; error = some e }
judged now (ok _) ch = record ch { status = Status.valid; validated = some now }

abbrev pub judged_authz : Result Failure (Unit {0}) → Authz → Authz
judged_authz (err e) az = record az { status = Status.invalid }
judged_authz (ok _) az = record az { status = Status.valid }

abbrev pub challenge_error : StoreError → AcmeError
challenge_error StoreError.not_found = errf 404 "malformed"
challenge_error StoreError.empty_path = in_store StoreError.empty_path
challenge_error StoreError.unavailable = in_store StoreError.unavailable

abbrev pub found_challenge : Result StoreError Challenge → Result AcmeError Challenge
found_challenge (err e) = err (challenge_error e)
found_challenge (ok ch) = ok ch

abbrev pub found_authz : Result StoreError Authz → Result AcmeError Authz
found_authz (err e) = err (in_store e)
found_authz (ok az) = ok az

-- the challenge and its authorization, if the account is its owner
unfoldable pub load_challenge :
    ChallengeCall → Option Account → String → Trials → Result AcmeError (Challenge × Authz)
unfolding get
load_challenge c account id s = do
  ch ← found_challenge (get c.on_challenge id s.challenges)
  az ← found_authz (get c.on_authz ch.authz_id s.authzs)
  guard (is_owner account az.account_id) (errf 403 "unauthorized")
  ok (ch, az)

-- is a validation asked for, by a payload to a pending challenge
abbrev pub is_asked : Bytes → Status → Bool
is_asked [] status = false
is_asked (b ∷ bs) Status.pending = true
is_asked (b ∷ bs) Status.ready = false
is_asked (b ∷ bs) Status.valid = false
is_asked (b ∷ bs) Status.invalid = false

module _ (l : Codec) (n : Network) where
  abbrev pub key_authz : String → Account → String
  key_authz token acct = text_append token (text_append "." acct.thumbprint)

  unfoldable pub check_http01 : String → String → String → Result Failure (Unit {0})
  unfolding trim_space
  check_http01 host token expected = do
    reply ← some_or fetching (n.fetch host token)
    guard (reply.code == 200) bad_status
    body ← some_or reading reply.body
    guard (str_eq (trim_space (n.text (take 8192 body))) expected) mismatch

  unfoldable pub check_dns01 : String → String → Result Failure (Unit {0})
  unfolding contains
  check_dns01 host expected = do
    txts ← some_or looking_up (n.txt (text_append "_acme-challenge." host))
    guard (contains txts (l.base64 (l.sha256 (l.utf8 expected)))) no_record

  unfoldable pub attempt : Account → Authz → Challenge → Result Failure (Unit {0})
  unfolding check_http01 check_dns01 cut_prefix
  attempt acct az ch =
      if str_eq ch.typ "http-01"
      then check_http01 az.identifier ch.token (key_authz ch.token acct)
      else if str_eq ch.typ "dns-01"
      then check_dns01 (without_star (cut_prefix "*." az.identifier) az.identifier)
          (key_authz ch.token acct)
      else err unsupported

  -- the writes of a validation's outcome, and then that of the order
  unfoldable pub store_outcome :
      ChallengeCall → Challenge → Authz → Trials → Result StoreError (Unit {0}) × Trials
  unfolding put update_order_status
  store_outcome c ch az s =
      let (r, b) = put c.on_store_challenge ch.id ch s.challenges in
      let s' = record s { challenges = b } in
      elim r [
        | err e ↦ (err e, s')
        | ok _ ↦
            let (r', b') = put c.on_store_authz az.id az s'.authzs in
            let s'' = record s' { authzs = b' } in
            elim r' [
              | err e ↦ (err e, s'')
              | ok _ ↦
                  let (r'', orders) =
                    update_order_status c.on_order c.on_scan c.on_store_order az.order_id s''.authzs
                      s''.orders in
                  (r'', record s'' { orders = orders })
            ]
      ]

  abbrev pub outcome_of : Challenge → Result StoreError (Unit {0}) → Result AcmeError Challenge
  outcome_of ch (err e) = err (in_store e)
  outcome_of ch (ok _) = ok ch

  unfoldable pub validate_challenge :
      ChallengeCall → Account → Authz → Challenge → Trials → Result AcmeError Challenge × Trials
  unfolding attempt store_outcome
  validate_challenge c acct az ch s =
      let v = attempt acct az ch in
      let (r, s') = store_outcome c (judged c.now v ch) (judged_authz v az) s in
      (outcome_of (judged c.now v ch) r, s')

  -- the part of handleChallenge after its loads
  abbrev pub answer_challenge :
      ChallengeCall
      → Option Account
      → Bytes
      → Challenge
      → Authz
      → Trials
      → Result AcmeError Challenge × Trials
  unfolding validate_challenge
  answer_challenge c none payload ch az s = (err (errf 403 "unauthorized"), s)
  answer_challenge c (some acct) payload ch az s =
      if is_asked payload ch.status
      then if n.is_json payload then validate_challenge c acct az ch s else (err malformed, s)
      else (ok ch, s)

  unfoldable pub handle_challenge :
      ChallengeCall → Option Account → String → Bytes → Trials → Result AcmeError Challenge × Trials
  unfolding load_challenge answer_challenge
  handle_challenge c account id payload s = elim (load_challenge c account id s) [
    | err e ↦ (err e, s)
    | ok (ch, az) ↦ answer_challenge c account payload ch az s
  ]
