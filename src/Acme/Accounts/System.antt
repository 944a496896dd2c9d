-- ===== src/Acme/Accounts/System.antt =====
-- The accounts of a tenant under any sequence of requests.
use mnemoca.Prelude.{
  ◌>>=◌, ℕ, String, Bool, true, false, Option, none, some, List, [], Result, ok, err, ◌≡◌, refl,
  inl, inr, arith, ap, sym, ◌∙◌, Result-cases, lookup,
}
use mathlib.Core.Path.{subst}
use mnemoca.Store.Fault.{Fault}
use mnemoca.Store.Bucket.{Bucket, put, empty}
use mnemoca.Audit.Record.{Bytes}
use mnemoca.Acme.Problem.{AcmeError, Account}
use mnemoca.Acme.Keys.{Codec, jwk_thumbprint}
use mnemoca.Acme.Nonces.{NonceRec}
use mnemoca.Acme.Requests.{Wire, HttpRequest, JwsRequest, Visit, verify_request}
use mnemoca.Acme.Requests.Verified.{verify_request-IsVerified}
use mnemoca.Acme.Accounts.{
  Forms, Accounts, AccountCall, account_body, account_of, bound_kid, by_thumbprint, if_known,
  plan_account, handle_new_account, create_eab_key,
}
use mnemoca.Acme.Accounts.Contacts.{own_account, plan_update, save_contact, handle_account}
use mnemoca.Acme.Accounts.Stored.{store_account_accounts}
use mnemoca.Store.Bucket.Laws.{put-lookup}

-- no account, no external key
abbrev pub no_accounts : Accounts
no_accounts = record { accounts = empty; eab = empty; log = [] }

-- A request that was verified among the accounts, whatever the nonces and the outcomes of the reads.
abbrev pub IsAccepted : Codec → Wire → Bucket Account → JwsRequest → Type 0
IsAccepted l w accounts req =
    (v : Visit) × (r : HttpRequest) × (nonces : Bucket NonceRec) × ((verify_request l w v r accounts
        nonces).0
      ≡ ok req)

-- The states that requests lead to. A request may be verified against any earlier or later state than
-- the one in which its handler runs.
pub data Reachable (l : Codec) (w : Wire) (fs : Forms) (require_eab : Bool) (url : String)
    : Accounts → Type 0 where
  start : Reachable l w fs require_eab url no_accounts
  registered :
      (s seen : Accounts) (c : AccountCall) (req : JwsRequest)
      → Reachable l w fs require_eab url s
      → Reachable l w fs require_eab url seen
      → IsAccepted l w seen.accounts req
      → Reachable l w fs require_eab url (handle_new_account l w fs c require_eab url req s).1
  updated :
      (s seen : Accounts) (f : Fault) (id : String) (req : JwsRequest)
      → Reachable l w fs require_eab url s
      → Reachable l w fs require_eab url seen
      → IsAccepted l w seen.accounts req
      → Reachable l w fs require_eab url (handle_account l w fs f req id s).1
  offered :
      (s : Accounts) (f : Fault) (now : ℕ) (kid : String) (key : Bytes)
      → Reachable l w fs require_eab url s
      → Reachable l w fs require_eab url (create_eab_key l w fs f now kid key s).1

module _ (l : Codec) (w : Wire) (fs : Forms) where
  -- The account is valid, stored under its id, and with the thumbprint of its key.
  abbrev pub IsSound : String → Account → Type 0
  IsSound id a = (a.id ≡ id) × (a.status ≡ "valid") × (jwk_thumbprint l a.jwk ≡ ok a.thumbprint)

  abbrev pub AllSound : Bucket Account → Type 0
  AllSound b = (id : String) (a : Account) → lookup id b.docs ≡ some a → IsSound id a

  put-AllSound :
      (f : Fault) (a : Account) (b : Bucket Account)
      → IsSound a.id a
      → AllSound b
      → AllSound (put f a.id a b).1
  put-AllSound f a b good sound id x h = elim (put-lookup f a.id a b id) [
    | inl same ↦ sound id x (sym same ∙ h)
    | inr (at, here) ↦
        let made : a ≡ x = ground (arith, here, h) in
        subst (λ i. IsSound i x) (sym at) (subst (λ y. IsSound a.id y) made good)
  ]

  accepted_thumb :
      (accounts : Bucket Account) (req : JwsRequest)
      → IsAccepted l w accounts req
      → jwk_thumbprint l req.jwk ≡ ok req.thumb
  accepted_thumb accounts req (v, r, nonces, h) =
      let (_, _, _, _, _, _, _, _, printed, _, _) =
        verify_request-IsVerified l w v r accounts nonces req h in
      printed

  accepted_account :
      (accounts : Bucket Account) (req : JwsRequest) (a : Account)
      → IsAccepted l w accounts req
      → AllSound accounts
      → req.account ≡ some a
      → IsSound a.id a
  accepted_account accounts req a (v, r, nonces, h) sound there =
      let (_, _, _, _, _, _, who, _, _, _, _) =
        verify_request-IsVerified l w v r accounts nonces req h in
      elim who [
        | inl (bare, _, _, _) ↦ absurd (ground (arith, bare, there))
        | inr (acct, id, named, _, _, found, _, _) ↦
            let same : acct ≡ a = ground (arith, named, there) in
            let (_, valid, printed) = sound id acct found in
            subst (λ (x : Account). IsSound x.id x) same (refl, valid, printed)
      ]

  if_known_made :
      (found : Option Account) (only : Bool) (new : Result AcmeError Account) (a : Account)
      → if_known l w fs found only new ≡ ok (a, true)
      → new ≡ ok a
  if_known_made (some b) only new a h = absurd (ground (arith, h))
  if_known_made none true new a h = absurd (ground (arith, h))
  if_known_made none false (ok b) a h = ground (arith, h)
  if_known_made none false (err e) a h = absurd (ground (arith, h))

  planned-IsSound :
      (c : AccountCall) (require_eab : Bool) (url : String) (req : JwsRequest) (s : Accounts)
      (a : Account)
      → jwk_thumbprint l req.jwk ≡ ok req.thumb
      → plan_account l w fs c require_eab url req s ≡ ok (a, true)
      → IsSound a.id a
  unfolding plan_account
  planned-IsSound c require_eab url req s a printed h =
      elim (Result-cases (account_body l w fs req.payload)) [
        | inl (e, bad) ↦ absurd (ground (arith, h, bad))
        | inr (body, decoded) ↦
            let bound = bound_kid l w fs c.on_eab require_eab url s.eab req.jwk body.binding in
            let new = bound >>= λ kid. ok (account_of l w fs c req body kid) in
            let known : if_known l w fs (by_thumbprint req.thumb none s.accounts.docs)
                  body.only_return_existing new
                ≡ ok (a, true) =
              ground (arith, h, decoded) in
            let made = if_known_made _ _ new a known in
            elim (Result-cases bound) [
              | inl (e, bad) ↦ absurd (ground (arith, made, bad))
              | inr (kid, named) ↦
                  let same : account_of l w fs c req body kid ≡ a = ground (arith, made, named) in
                  subst (λ (x : Account). IsSound x.id x) same (refl, refl, printed)
            ]
      ]

  new_account-AllSound :
      (c : AccountCall) (require_eab : Bool) (url : String) (req : JwsRequest) (s : Accounts)
      → jwk_thumbprint l req.jwk ≡ ok req.thumb
      → AllSound s.accounts
      → AllSound (handle_new_account l w fs c require_eab url req s).1.accounts
  unfolding handle_new_account
  new_account-AllSound c require_eab url req s printed sound =
      elim (Result-cases (plan_account l w fs c require_eab url req s)) [
        | inl (e, bad) ↦ rw (bad, handle_new_account) sound
        | inr ((a, false), planned) ↦ rw (planned, handle_new_account) sound
        | inr ((a, true), planned) ↦
            let good = planned-IsSound c require_eab url req s a printed planned in
            rw (planned, handle_new_account)
              (subst AllSound (sym (store_account_accounts l w fs c a s))
                (put-AllSound c.on_put a s.accounts good sound))
      ]

  own_account_ok :
      (account : Option Account) (id : String) (a : Account)
      → own_account l w fs account id ≡ ok a
      → account ≡ some a
  own_account_ok none id a h = absurd (ground (arith, h))
  own_account_ok (some b) id a h = ground (arith, h)

  save_contact-AllSound :
      (f : Fault) (a : Account) (contact : Option (List String)) (s : Accounts)
      → IsSound a.id a
      → AllSound s.accounts
      → AllSound (save_contact l w fs f a contact s).1.accounts
  unfolding save_contact
  save_contact-AllSound f a none s good sound = sound
  save_contact-AllSound f a (some contact) s good sound =
      put-AllSound f (record a { contact = contact }) s.accounts good sound

  account-AllSound :
      (f : Fault) (id : String) (req : JwsRequest) (s : Accounts)
      → ((a : Account) → req.account ≡ some a → IsSound a.id a)
      → AllSound s.accounts
      → AllSound (handle_account l w fs f req id s).1.accounts
  unfolding handle_account plan_update
  account-AllSound f id req s own sound = elim (Result-cases (own_account l w fs req.account id)) [
    | inl (e, bad) ↦ rw (bad, handle_account) sound
    | inr (a, mine) ↦ elim (Result-cases (plan_update l w fs req id)) [
      | inl (e, bad) ↦ rw (bad, handle_account) sound
      | inr ((b, body), planned) ↦
          let same : a ≡ b = ground (arith, planned, mine) in
          let there = own_account_ok req.account id b (mine ∙ ap ok same) in
          rw (planned, handle_account)
            (save_contact-AllSound f b body.contact s (own b there) sound)
    ]
  ]

  -- Whatever requests a tenant has had, a stored account is valid, is stored under its own id, and has
  -- the thumbprint of its key.
  pub reachable-AllSound :
      (require_eab : Bool) (url : String) (s : Accounts)
      → Reachable l w fs require_eab url s
      → AllSound s.accounts
  unfolding lookup create_eab_key
  reachable-AllSound require_eab url s start = λ id a h. absurd (ground (arith, h))
  reachable-AllSound require_eab url s (registered s' seen c req before _ accepted) =
      new_account-AllSound c require_eab url req s' (accepted_thumb seen.accounts req accepted)
        (reachable-AllSound require_eab url s' before)
  reachable-AllSound require_eab url s (updated s' seen f id req before elsewhere accepted) =
      account-AllSound f id req s'
        (λ a there.
          accepted_account seen.accounts req a accepted
            (reachable-AllSound require_eab url seen elsewhere) there)
        (reachable-AllSound require_eab url s' before)
  reachable-AllSound require_eab url s (offered s' f now kid key before) =
      reachable-AllSound require_eab url s' before
