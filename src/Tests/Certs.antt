-- ===== src/Tests/Certs.antt =====
-- The theorems on algorithms, profiles, issuance, revocation and revocation lists, applied.
use mnemoca.Store.Fault.{fine, refused, ghost}
use mnemoca.Pkix.Algs.{lookup_alg}
use mnemoca.Ca.Profile.{named_usages, Profile, key_usage, ext_key_usages}
use mnemoca.Ca.Profile.Grants.{granted, key_usage-granted}
use mnemoca.Ca.State.{log_ca, Tenant, CertRecord, CaState}
use mnemoca.Ca.Issue.{
  Csr, IssueRequest, Plan, plan_issue, revoke, already_revoked, clamp_validity, audit_failed,
}
use mnemoca.Ca.Issue.Laws.{revoke_once}
use mnemoca.Pkix.Algs.{entry_of, lookup_alg}
use mnemoca.Prelude.{contains, lookup, insert}
use mnemoca.Ca.Profile.{named_usages}
use mnemoca.Store.Bucket.{get, put, update}
use mnemoca.Ca.Issue.{chain_targets, clamp_validity, revoke, plan_issue}
use mnemoca.Ca.State.{log_ca}
use mnemoca.Ca.Request.{abandon, revoke_each, prepare}
use mnemoca.Ca.Issuing.{issue_all, issue_one, keep_one, sign_one}
use mnemoca.Ca.Issuing.{Pki}
use mnemoca.Ca.Request.{Weather, issue, prepare}
use mnemoca.Ca.Request.Abandon.{cert_at}
use mnemoca.Ca.Request.Whole.{issue_leaves_none_valid}
use mnemoca.Ca.Crl.{is_number, collect, crl_entries, Crl, CrlCalls, build_crl}
use mnemoca.Ca.Profiles.{set_profile, delete_profile}
use mnemoca.Ca.Profiles.Default.{HasDefault, default_stays}
use mnemoca.Ca.Crl.Entries.{listed, build_crl_lem}
use mnemoca.Store.Bucket.{next_seq, for_each, update, get}
use mnemoca.Prelude.{
  insert, ◌^◌, ◌%◌, ◌+◌, lookup, contains, str_eq, if◌then◌else◌, true, ◌≡◌, false, arith, refl,
  some, ok, err, pos, [], ◌∷◌,
}

abbrev web : Profile
web = record {
  name = "web";
  default_validity = pos 90;
  max_validity = pos 398;
  server_auth = true;
  client_auth = false;
  ekus = "server_auth" ∷ [];
  key_usages = "digital_signature" ∷ "key_agreement" ∷ [];
  allowed_key_algs = "ml-dsa-65" ∷ [];
  hybrid = "both";
}

key_usage-granted_example :
    (granted web.key_usages ≡ granted web.key_usages) × (false ≡ false) × (false ≡ false)
unfolding key_usage named_usages lookup contains
key_usage-granted_example = key_usage-granted web {u = granted web.key_usages} refl

abbrev pub csr : Csr
csr = record { key_alg = "ml-dsa-65"; signature_valid = true; subject_cn = "a"; sans = "a" ∷ [] }

abbrev acme_co : Tenant
acme_co = record {
  id = "acme";
  name = "Acme";
  created_at = 1;
  alg = "ml-dsa-65";
  key_ref = "k1";
  cert_pem = [];
  pair_alg = "ecdsa-p256";
  pair_key_ref = "k2";
  pair_cert_pem = [];
  profiles = ("web", web) ∷ [];
}

abbrev asked : IssueRequest
asked = record {
  tenant = "acme";
  profile = "web";
  csr = some csr;
  validity = pos 1000;
  chain = "";
  experimental_composite = false;
}

abbrev both_chains : Plan
both_chains = record {
  profile = web;
  csr = csr;
  validity = pos 398;
  targets = "primary" ∷ "pair" ∷ [];
}

abbrev old_cert : CertRecord
old_cert = record {
  serial = "7";
  tenant = "acme";
  profile = "web";
  chain = "primary";
  subject_cn = "a";
  sans = [];
  key_alg = "ml-dsa-65";
  sig_alg = "ml-dsa-65";
  not_before = pos 0;
  not_after = pos 400;
  pem = [];
  revoked = false;
  revoked_at = 0;
  reason_code = pos 0;
}

abbrev empty_ca : CaState
empty_ca = record {
  tenants = record { docs = ("acme", acme_co) ∷ []; seq = 0 };
  certs = λ t. record { docs = ("7", old_cert) ∷ []; seq = 0 };
  crls = λ t. record { docs = []; seq = 6 };
  log = [];
}

abbrev pub signs_all : Pki
signs_all = record {
  parses = λ b. true;
  opens = λ k. true;
  create = λ pem key template. some (record {
    key_alg = template.csr.key_alg;
    sig_alg = "ml-dsa-65";
    not_before = template.not_before;
    not_after = template.not_after;
    pem = [];
  });
}

-- The certificate of the first chain is stored and audited, that of the second only stored.
abbrev pub half : Weather
half = record {
  tenant = fine;
  root = ok (record { cert_pem = []; pair_cert_pem = [] });
  call = λ target. record {
    serial = some target;
    now = 1000;
    stored = fine;
    audited = if str_eq target "pair" then refused else fine;
  };
  rev = λ serial. (fine, fine);
  report = fine;
  later = 2000;
}

abbrev after_half : CaState
after_half = (issue signs_all half asked empty_ca).1

issue_leaves_none_valid_example : cert_at empty_ca "acme" "7" ≡ some old_cert
unfolding issue prepare get lookup plan_issue lookup_alg contains issue_all issue_one ext_key_usages
    key_usage named_usages put log_ca abandon revoke update insert chain_targets clamp_validity
    keep_one sign_one revoke_each entry_of
issue_leaves_none_valid_example =
    issue_leaves_none_valid signs_all half asked empty_ca acme_co both_chains
      (record { cert_pem = []; pair_cert_pem = [] }) refl (λ target h. absurd (ground (arith, h)))
      (λ serial. refl) audit_failed refl "7" old_cert refl refl

revoke_once_example :
    (revoke ghost fine 9 "acme" "7" (pos 1) (revoke fine fine 8 "acme" "7" (pos 4) empty_ca).1).0
    ≡ err already_revoked
unfolding revoke update lookup log_ca
revoke_once_example = revoke_once fine ghost fine fine 8 9 "acme" "7" (pos 4) (pos 1) empty_ca refl

abbrev revoked_ca : CaState
revoked_ca = (revoke fine fine 8 "acme" "7" (pos 4) empty_ca).1

abbrev crl_calls : CrlCalls
crl_calls = record { tenant = fine; number = fine; audited = fine; now = 10 }

abbrev seven : Crl
seven = record {
  number = 7;
  entries = record { serial = "7"; revocation_time = 8; reason_code = pos 4 } ∷ [];
  this_update = 10;
  next_update = 86400000000010;
}

build_crl_lem_example :
    (seven.entries ≡ listed "primary" (revoked_ca.certs "acme").docs)
    × (seven.number ≡ ((revoked_ca.crls "acme").seq + 1) % 2 ^ 64)
    × (((build_crl signs_all true crl_calls "acme" "primary" revoked_ca).1.crls "acme").seq
        ≡ seven.number)
unfolding build_crl crl_entries get lookup revoke update log_ca for_each insert collect is_number
    next_seq
build_crl_lem_example =
    build_crl_lem signs_all true crl_calls "acme" "primary" revoked_ca {crl = seven} refl

abbrev pub with_default : CaState
with_default = record empty_ca {
  tenants = record {
    docs = ("acme", record acme_co { profiles = ("default", web) ∷ [] }) ∷ [];
    seq = 0;
  };
}

default_stays_example :
    HasDefault (set_profile fine fine "acme" web with_default).1 "acme"
    × HasDefault (delete_profile fine fine "acme" "web" with_default).1 "acme"
unfolding lookup
default_stays_example =
    default_stays fine fine "acme" with_default
      (record acme_co { profiles = ("default", web) ∷ [] }, web, refl, refl) web "web"
