-- ===== src/Ca/Issue.antt =====
-- internal/ca/issue.go: issuing from one or both chains of a tenant, and revoking.
pub mod Laws
use mnemoca.Store.Fault.{Fault, not_found, UpdateError, of_store, rejected}
use mnemoca.Store.Bucket.{update}
use mnemoca.Pkix.Algs.{lookup_alg}
use mnemoca.Ca.Profile.{Profile, chain_primary, chain_pair, chain_both}
use mnemoca.Ca.State.{Tenant, CertRecord, CaState, with_certs, log_ca}
use mnemoca.Prelude.{
  none, [], contains, ◌||◌, ◌∷◌, true, ◌&&◌, pos, ◌==◌, not, some, ok, lookup, err, length, str_eq,
  int_leb, Option, Bool, some_or, false, if◌then◌else◌, Result, ℤ, List, String, ℕ, ◌>>=◌, ◌>>◌,
  guard,
}

pub record Csr : Type 0 where
  pub key_alg : String
  pub signature_valid : Bool
  pub subject_cn : String
  pub sans : List String

pub record IssueRequest : Type 0 where
  pub tenant : String
  pub profile : String
  pub csr : Option Csr
  pub validity : ℤ
  pub chain : String
  pub experimental_composite : Bool

pub data CaError : Type 0 where
  unknown_tenant no_profile missing_csr bad_csr_signature unknown_algorithm : CaError
  experimental_composite algorithm_not_allowed no_pair_chain invalid_chain : CaError
  store_failed not_initialized cannot_sign unknown_certificate already_revoked audit_failed :
      CaError

abbrev or_default : String → String → String
or_default fallback s = if str_eq s "" then fallback else s

-- the validity of the request, or the profile's default, up to its maximum
unfoldable pub clamp_validity : ℤ → Profile → ℤ
clamp_validity asked p =
    let validity =
      if int_leb asked (pos 0) && int_leb (pos 0) asked then p.default_validity else asked in
    if int_leb validity p.max_validity then validity else p.max_validity

unfoldable pub chain_targets : String → Result CaError (List String)
chain_targets chain =
    if str_eq chain chain_primary
    then ok (chain_primary ∷ [])
    else if str_eq chain chain_pair
    then ok (chain_pair ∷ [])
    else if str_eq chain chain_both
    then ok (chain_primary ∷ chain_pair ∷ [])
    else err invalid_chain

pub record Plan : Type 0 where
  pub profile : Profile
  pub csr : Csr
  pub validity : ℤ
  pub targets : List String

abbrev pub allowed : List String → String → Bool
allowed algs alg = length algs == 0 || contains algs alg

-- everything of Issue between loading the tenant and loading the root
unfoldable pub plan_issue : Tenant → IssueRequest → Result CaError Plan
unfolding clamp_validity chain_targets
plan_issue t req = do
  profile ← some_or no_profile (lookup (or_default "default" req.profile) t.profiles)
  csr ← some_or missing_csr req.csr
  guard csr.signature_valid bad_csr_signature
  info ← some_or unknown_algorithm (lookup_alg csr.key_alg)
  guard (not info.experimental || req.experimental_composite) experimental_composite
  guard (allowed profile.allowed_key_algs csr.key_alg) algorithm_not_allowed
  let chain = or_default chain_primary (or_default profile.hybrid req.chain)
  guard (not ((str_eq chain chain_pair || str_eq chain chain_both) && str_eq t.pair_alg ""))
      no_pair_chain
  targets ← chain_targets chain
  ok (record {
    profile = profile;
    csr = csr;
    validity = clamp_validity req.validity profile;
    targets = targets;
  })

-- the update of Revoke
abbrev pub mark_revoked : ℕ → ℤ → Option CertRecord → Result CaError CertRecord
mark_revoked now reason none = err unknown_certificate
mark_revoked now reason (some rec) =
    if rec.revoked
    then err already_revoked
    else ok (record rec { revoked = true; revoked_at = now; reason_code = reason })

abbrev revoke_error : UpdateError CaError → CaError
revoke_error (of_store not_found) = unknown_certificate
revoke_error (of_store _) = store_failed
revoke_error (rejected e) = e

-- `f` is the outcome of the update, `g` that of the audit record.
unfoldable pub revoke :
    Fault → Fault → ℕ → String → String → ℤ → CaState → Result CaError (Unit {0}) × CaState
revoke f g now tenant serial reason s =
    let (r, b) = update f false serial (mark_revoked now reason) (s.certs tenant) in
    let s' = with_certs tenant b s in
    elim r [
      | err e ↦ (err (revoke_error e), s')
      | ok _ ↦
          let (w, s'') =
            log_ca g (record { tenant = tenant; action = "cert.revoke"; objects = serial ∷ [] })
              s' in
          (elim w [ ok _ ↦ ok tt | err _ ↦ err audit_failed ], s'')
    ]
