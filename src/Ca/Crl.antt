-- ===== src/Ca/Crl.antt =====
-- internal/ca/issue.go: BuildCRL.
pub mod Entries
use mnemoca.Store.Fault.{Fault, StoreError, not_found}
use mnemoca.Store.Bucket.{Bucket, get, next_seq, for_each}
use mnemoca.Ca.Profile.{chain_primary, chain_pair}
use mnemoca.Ca.State.{Tenant, CertRecord, CaEvent, CaState, log_ca}
use mnemoca.Ca.Issue.{
  CaError, unknown_tenant, store_failed, no_pair_chain, cannot_sign, audit_failed,
}
use mnemoca.Ca.Issuing.{Pki}
use mnemoca.Prelude.{
  ◌||◌, ◌+◌, not, ◌==◌, [], ◌∷◌, leb, str_eq, ◌++◌, err, if◌then◌else◌, List, true, ok, ℤ, false,
  ◌&&◌, ℕ, String, Result, Bool, ◌>>=◌, ◌>>◌, guard, some_or,
}
use Prim.Native.Char.{Char, code}

-- an entry of the list; `serial` is the number that the record's text stands for
pub record RevokedEntry : Type 0 where
  pub serial : String
  pub revocation_time : ℕ
  pub reason_code : ℤ

pub record Crl : Type 0 where
  pub number : ℕ
  pub entries : List RevokedEntry
  pub this_update : ℕ
  pub next_update : ℕ

abbrev pub chain_or_primary : String → String
chain_or_primary chain = if str_eq chain "" then chain_primary else chain

all_digits : String → Bool
all_digits String.[] = true
all_digits (String.◌∷◌ c s) =
    let rest = all_digits s in leb b'0' (code c) && leb (code c) b'9' && rest

-- `SetString(s, 10)` succeeds: digits after at most one sign
unfoldable pub is_number : String → Bool
unfolding all_digits
is_number String.[] = false
is_number (String.◌∷◌ c String.[]) = leb b'0' (code c) && leb (code c) b'9'
is_number (String.◌∷◌ c (String.◌∷◌ d s)) =
    (code c == b'+' || code c == b'-' || leb b'0' (code c) && leb (code c) b'9')
    && all_digits (String.◌∷◌ d s)

abbrev pub is_listed : String → CertRecord → Bool
is_listed chain rec = rec.revoked && str_eq rec.chain (chain_or_primary chain)

abbrev pub entry_of : CertRecord → RevokedEntry
entry_of rec = record {
  serial = rec.serial;
  revocation_time = rec.revoked_at;
  reason_code = rec.reason_code;
}

-- the callback of the scan over the records
unfoldable pub collect :
    String → List RevokedEntry → String → CertRecord → Result CaError (List RevokedEntry)
collect chain out key rec =
    if is_listed chain rec
    then if is_number rec.serial then ok (out ++ entry_of rec ∷ []) else err CaError.store_failed
    else ok out

abbrev scan_error : Result StoreError Tenant → Result CaError Tenant
scan_error (ok t) = ok t
scan_error (err not_found) = err unknown_tenant
scan_error (err _) = err store_failed

-- the outcomes of the calls of one BuildCRL, and the clock
pub record CrlCalls : Type 0 where
  pub tenant : Fault
  pub number : Fault
  pub audited : Fault
  pub now : ℕ

-- BuildCRL up to the number: the key of the chain opens, and the records are scanned
unfoldable pub crl_entries :
    Pki → CrlCalls → String → String → CaState → Result CaError (List RevokedEntry)
crl_entries pki c tenant chain s =
    let pair = str_eq chain chain_pair in
    do
      t ← scan_error (get c.tenant tenant s.tenants)
      guard (not (pair && str_eq t.pair_alg "")) no_pair_chain
      guard (pki.parses (if pair then t.pair_cert_pem else t.cert_pem)) cannot_sign
      guard (pki.opens (if pair then t.pair_key_ref else t.key_ref)) cannot_sign
      for_each (collect chain) [] (s.certs tenant).docs

-- `signs` tells whether the list can be signed.
unfoldable pub build_crl :
    Pki → Bool → CrlCalls → String → String → CaState → Result CaError Crl × CaState
build_crl pki signs c tenant chain s = elim (crl_entries pki c tenant chain s) [
  | err e ↦ (err e, s)
  | ok entries ↦
      let (r, b) = next_seq c.number (s.crls tenant) in
      let s' = record s { crls = λ t. if str_eq t tenant then b else s.crls t } in
      elim r [
        | err _ ↦ (err store_failed, s')
        | ok n ↦
            if signs
            then (let event : CaEvent = record {
              tenant = tenant;
              action = "crl.publish";
              objects = [];
            } in
                let (w, s'') = log_ca c.audited event s' in
                let crl : Crl = record {
                  number = n;
                  entries = entries;
                  this_update = c.now;
                  next_update = c.now + 86400000000000;
                } in
                (elim w [ ok _ ↦ ok crl | err _ ↦ err audit_failed ], s''))
            else (err cannot_sign, s')
      ]
]
