-- ===== src/Acme/Problem.antt =====
-- internal/acme/types.go: the errors that become problem documents, and the stored accounts.
use mnemoca.Prelude.{ℕ, String, List}
use mnemoca.Store.Fault.{StoreError}
use mnemoca.Audit.Record.{Bytes}

-- `errf` with its status and its code, and any other error, of the store or of the library
pub data AcmeError : Type 0 where
  errf : ℕ → String → AcmeError
  in_store : StoreError → AcmeError

abbrev pub malformed : AcmeError
malformed = errf 400 "malformed"

abbrev pub bad_public_key : AcmeError
bad_public_key = errf 400 "badPublicKey"

-- `jwk` is the key as it was sent
pub record Account : Type 0 where
  pub id : String
  pub thumbprint : String
  pub jwk : String
  pub contact : List String
  pub status : String
  pub eab : String
  pub created_at : ℕ

pub record EabKey : Type 0 where
  pub kid : String
  pub key : Bytes
  pub created_at : ℕ
