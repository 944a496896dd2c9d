-- ===== src/Ca/State.antt =====
-- internal/ca/ca.go: what the CA engine stores. Times are in nanoseconds.
use mnemoca.Store.Fault.{Fault, StoreError, unavailable, commit}
use mnemoca.Store.Bucket.{Bucket}
use mnemoca.Ca.Profile.{Profile}
use mnemoca.Prelude.{ℕ, ℤ, String, Bool, List, [], ◌∷◌, ◌++◌, Dict, Result, str_eq, if◌then◌else◌}

pub record Tenant : Type 0 where
  pub id : String
  pub name : String
  pub created_at : ℕ
  pub alg : String
  pub key_ref : String
  pub cert_pem : List ℕ
  pub pair_alg : String
  pub pair_key_ref : String
  pub pair_cert_pem : List ℕ
  pub profiles : Dict Profile

pub record CertRecord : Type 0 where
  pub serial : String
  pub tenant : String
  pub profile : String
  pub chain : String
  pub subject_cn : String
  pub sans : List String
  pub key_alg : String
  pub sig_alg : String
  pub not_before : ℤ
  pub not_after : ℤ
  pub pem : List ℕ
  pub revoked : Bool
  pub revoked_at : ℕ
  pub reason_code : ℤ

-- an audit record of the engine: its tenant, its action, and the ids that it is about
pub record CaEvent : Type 0 where
  pub tenant : String
  pub action : String
  pub objects : List String

-- `certs` and `crls` are the buckets of each tenant; of a CRL bucket only the counter is used.
pub record CaState : Type 0 where
  pub tenants : Bucket Tenant
  pub certs : String → Bucket CertRecord
  pub crls : String → Bucket (Unit {0})
  pub log : List CaEvent

abbrev pub with_certs : String → Bucket CertRecord → CaState → CaState
with_certs tenant b s = record s { certs = λ t. if str_eq t tenant then b else s.certs t }

unfoldable pub log_ca : Fault → CaEvent → CaState → Result StoreError (Unit {0}) × CaState
log_ca f e s = commit f unavailable tt s (record s { log = s.log ++ e ∷ [] })
