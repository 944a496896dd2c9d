-- ===== src/Acme/Accounts/Stored.antt =====
-- What the write of an account leaves stored.
use mnemoca.Prelude.{List, ◌≡◌, refl, inl, inr, Result-cases}
use mnemoca.Store.Fault.{Fault, fine, refused, ghost, StoreError, commit}
use mnemoca.Store.Bucket.{put}
use mnemoca.Acme.Problem.{Account}
use mnemoca.Acme.Keys.{Codec}
use mnemoca.Acme.Requests.{Wire}
use mnemoca.Acme.Accounts.{AcmeEvent, Forms, Accounts, AccountCall, store_account}

module _ (l : Codec) (w : Wire) (fs : Forms) where
  logged_accounts :
      (g : Fault) (s : Accounts) (events : List AcmeEvent)
      → (commit {0, 0, 0} g StoreError.unavailable
          (tt {0})
          s
          (record s { log = events })).1.accounts
        ≡ s.accounts
  logged_accounts fine s events = refl
  logged_accounts refused s events = refl
  logged_accounts ghost s events = refl

  pub store_account_accounts :
      (c : AccountCall) (a : Account) (s : Accounts)
      → (store_account l w fs c a s).1.accounts ≡ (put c.on_put a.id a s.accounts).1
  unfolding store_account
  store_account_accounts c a s = elim (Result-cases (put c.on_put a.id a s.accounts).0) [
    | inl (e, bad) ↦ rw (bad, store_account) refl
    | inr (_, good) ↦ rw (good, store_account) (logged_accounts c.on_log _ _)
  ]
