-- ===== src/Acme/Accounts/Contacts.antt =====
-- internal/acme/account.go: the requests on an account's own URL.
use mnemoca.Prelude.{
  String, ◌||◌, Option, none, some, List, [], ◌∷◌, Result, ok, err, ◌>>=◌, ◌>>◌, guard, some_or,
  if◌then◌else◌, str_eq,
}
use mnemoca.Store.Fault.{Fault}
use mnemoca.Store.Bucket.{put}
use mnemoca.Audit.Record.{Bytes}
use mnemoca.Acme.Problem.{AcmeError, errf, malformed, Account}
use mnemoca.Acme.Keys.{Codec}
use mnemoca.Acme.Requests.{Wire, JwsRequest}
use mnemoca.Acme.Accounts.{Forms, Accounts, AccountUpdate, written}

module _ (l : Codec) (w : Wire) (fs : Forms) where
  -- the requesting account, if the URL is its own
  abbrev pub own_account : Option Account → String → Result AcmeError Account
  own_account none id = err (errf 403 "unauthorized")
  own_account (some a) id = if str_eq a.id id then ok a else err (errf 403 "unauthorized")

  -- an empty payload changes nothing
  abbrev pub update_body : Bytes → Result AcmeError AccountUpdate
  update_body [] = ok (record { contact = none; status = "" })
  update_body (b ∷ bs) = some_or malformed (fs.unjson_update (b ∷ bs))

  unfoldable pub plan_update : JwsRequest → String → Result AcmeError (Account × AccountUpdate)
  plan_update req id = do
    acct ← own_account req.account id
    body ← update_body req.payload
    guard (str_eq body.status "" || str_eq body.status acct.status) malformed
    ok (acct, body)

  -- PutJSON of the account as the request was verified with it, under new contacts
  unfoldable pub save_contact :
      Fault → Account → Option (List String) → Accounts → Result AcmeError Account × Accounts
  unfolding put
  save_contact f acct none s = (ok acct, s)
  save_contact f acct (some contact) s =
      let acct' : Account = record acct { contact = contact } in
      let (r, b) = put f acct'.id acct' s.accounts in
      (written l w fs r acct', record s { accounts = b })

  unfoldable pub handle_account :
      Fault → JwsRequest → String → Accounts → Result AcmeError Account × Accounts
  unfolding plan_update save_contact
  handle_account f req id s = elim (plan_update req id) [
    | err e ↦ (err e, s)
    | ok (acct, body) ↦ save_contact f acct body.contact s
  ]
