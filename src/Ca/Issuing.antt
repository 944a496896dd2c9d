-- ===== src/Ca/Issuing.antt =====
-- internal/ca/issue.go: the certificates of one request, and what is done when one of them fails.
use mnemoca.Prelude.{some_or, guard, ◌>>=◌, ◌>>◌}
use mnemoca.Store.Fault.{Fault}
use mnemoca.Store.Bucket.{put}
use mnemoca.Ca.Profile.{KeyUsage, Eku, ext_key_usages, key_usage, chain_pair}
use mnemoca.Ca.State.{Tenant, CertRecord, CaState, with_certs, log_ca}
use Prim.Native.Nat.{ℕ}
use Prim.Native.String.{◌∷◌, [], String}
use mnemoca.Prelude.{
  ◌++◌, ◌∷◌, [], if◌then◌else◌, negsuc, err, str_eq, ℤ, int_add, Bool, ok, pos, List, Option,
  Result, false,
}
use mnemoca.Ca.Issue.{Csr, CaError, Plan, store_failed, cannot_sign, audit_failed}

-- the parts of RootInfo that Issue uses
pub record Root : Type 0 where
  pub cert_pem : List ℕ
  pub pair_cert_pem : List ℕ

pub record Template : Type 0 where
  pub serial : String
  pub csr : Csr
  pub not_before : ℤ
  pub not_after : ℤ
  pub usage : KeyUsage
  pub ekus : List Eku

-- what the signed certificate says besides its template, as it is read back
pub record Signed : Type 0 where
  pub key_alg : String
  pub sig_alg : String
  pub not_before : ℤ
  pub not_after : ℤ
  pub pem : List ℕ

pub record Cert : Type 0 where
  pub template : Template
  pub signed : Signed

-- Certificates and keys: whether a PEM parses, whether a key opens, and the certificate that the
-- issuer with this PEM and key signs.
pub record Pki : Type 0 where
  pub parses : List ℕ → Bool
  pub opens : String → Bool
  pub create : List ℕ → String → Template → Option Signed

-- What the issuance from one chain meets: the random serial, if there is randomness, the clock,
-- and the outcomes of the store's and the log's call.
pub record Call : Type 0 where
  pub serial : Option String
  pub now : ℕ
  pub stored : Fault
  pub audited : Fault

-- An error after the record was stored carries its serial.
pub data IssueFailure : Type 0 where
  failed : CaError → IssueFailure
  persisted : String → CaError → IssueFailure

abbrev five_minutes_before : ℕ → ℤ
five_minutes_before now = int_add (pos now) (negsuc 299999999999)

abbrev profile_error {ℓ} : {A : Type ℓ} {E : Type 0} → Result E A → Result IssueFailure A
profile_error (ok a) = ok a
profile_error (err _) = err (failed cannot_sign)

abbrev pub template_of : ℕ → Plan → String → List Eku → KeyUsage → Template
template_of now plan serial ekus usage = record {
  serial = serial;
  csr = plan.csr;
  not_before = five_minutes_before now;
  not_after = int_add (pos now) plan.validity;
  usage = usage;
  ekus = ekus;
}

abbrev pub record_of : Tenant → Plan → String → Cert → CertRecord
record_of t plan target cert = record {
  serial = cert.template.serial;
  tenant = t.id;
  profile = plan.profile.name;
  chain = target;
  subject_cn = plan.csr.subject_cn;
  sans = plan.csr.sans;
  key_alg = cert.signed.key_alg;
  sig_alg = cert.signed.sig_alg;
  not_before = cert.signed.not_before;
  not_after = cert.signed.not_after;
  pem = cert.signed.pem;
  revoked = false;
  revoked_at = 0;
  reason_code = pos 0;
}

-- the rest of issueOne: the record is stored, then audited
unfoldable pub keep_one :
    Call → Tenant → Plan → String → Cert → CaState → Result IssueFailure Cert × CaState
keep_one c t plan target cert s =
    let rec = record_of t plan target cert in
    let (r, b) = put c.stored rec.serial rec (s.certs t.id) in
    let s' = with_certs t.id b s in
    elim r [
      | err _ ↦ (err (failed store_failed), s')
      | ok _ ↦
          let (w, s'') =
            log_ca c.audited
              (record { tenant = t.id; action = "cert.issue"; objects = rec.serial ∷ [] }) s' in
          (elim w [ ok _ ↦ ok cert | err _ ↦ err (persisted rec.serial audit_failed) ], s'')
    ]

abbrev pub persisted_serial : IssueFailure → List String
persisted_serial (failed _) = []
persisted_serial (persisted serial _) = serial ∷ []

abbrev pub cause : IssueFailure → CaError
cause (failed e) = e
cause (persisted _ e) = e

abbrev pub serials_of : List Cert → List String
serials_of [] = []
serials_of (cert ∷ certs) = cert.template.serial ∷ serials_of certs

module _ (pki : Pki) where
  -- issueOne up to the certificate
  unfoldable pub sign_one : Call → Tenant → Root → Plan → String → Result IssueFailure Cert
  sign_one c t root plan target =
      let pair = str_eq target chain_pair in
      let key_ref = if pair then t.pair_key_ref else t.key_ref in
      let cert_pem = if pair then t.pair_cert_pem else t.cert_pem in
      let root_pem = if pair then root.pair_cert_pem else root.cert_pem in
      do
        guard (pki.parses cert_pem) (failed cannot_sign)
        guard (pki.parses root_pem) (failed cannot_sign)
        guard (pki.opens key_ref) (failed cannot_sign)
        serial ← some_or (failed cannot_sign) c.serial
        ekus ← profile_error (ext_key_usages plan.profile)
        usage ← profile_error (key_usage plan.profile)
        let template = template_of c.now plan serial ekus usage
        signed ← some_or (failed cannot_sign) (pki.create cert_pem key_ref template)
        ok (record { template = template; signed = signed })

  unfoldable pub issue_one :
      Call → Tenant → Root → Plan → String → CaState → Result IssueFailure Cert × CaState
  unfolding sign_one keep_one
  issue_one c t root plan target s = elim (sign_one c t root plan target) [
    | err e ↦ (err e, s)
    | ok cert ↦ keep_one c t plan target cert s
  ]

  -- the loop over the targets; on an error, the serials to give up and the cause
  unfoldable pub issue_all :
      (String → Call)
      → Tenant
      → Root
      → Plan
      → List String
      → List Cert
      → CaState
      → Result (List String × CaError) (List Cert) × CaState
  issue_all call t root plan [] out s = (ok out, s)
  issue_all call t root plan (target ∷ targets) out s =
      let (r, s') = issue_one (call target) t root plan target s in
      elim r [
        | err e ↦ (err (serials_of out ++ persisted_serial e, cause e), s')
        | ok cert ↦ issue_all call t root plan targets (out ++ cert ∷ []) s'
      ]
