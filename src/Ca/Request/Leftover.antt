-- ===== src/Ca/Request/Leftover.antt =====
-- Which records a request has stored when it fails, and that none of them stays valid.
use mnemoca.Store.Fault.{Fault, fine, refused, ghost}
use mnemoca.Store.Bucket.{put}
use mnemoca.Ca.State.{Tenant, CaState, with_certs, log_ca}
use mnemoca.Ca.Issue.{Plan}
use mnemoca.Ca.Issuing.{
  Root, Cert, Pki, Call, IssueFailure, issue_one, keep_one, sign_one, serials_of, persisted_serial,
  record_of,
}
use mnemoca.Ca.Request.{err, ok, Result, String}
use mnemoca.Ca.Request.Abandon.{cert_at}
use mnemoca.Prelude.{
  insert, str_eq, ap, true, ◌≡◌, ◌≢◌, ◌++◌, arith, lookup, eq_refl, contains, lookup-insert, ◌⊎◌,
  inl, inr, refl, List, [], ◌∷◌, Result-cases, Bool-cases,
}

-- the serials that one issuance leaves to its request
abbrev pub left_by : Result IssueFailure Cert → List String
left_by (ok cert) = cert.template.serial ∷ []
left_by (err e) = persisted_serial e

pub serials_of-append : (xs ys : List Cert) → serials_of (xs ++ ys) ≡ serials_of xs ++ serials_of ys
serials_of-append [] ys = refl
serials_of-append (x ∷ xs) ys = ap (λ l. x.template.serial ∷ l) (serials_of-append xs ys)

-- The bucket after a record was put in it.
put_at :
    (t : Tenant) (plan : Plan) (target : String) (cert : Cert) (s : CaState) (x : String)
    → let rec = record_of t plan target cert in
      let b = record (s.certs t.id) { docs = insert rec.serial rec (s.certs t.id).docs } in
      (cert_at (with_certs t.id b s) t.id x ≡ cert_at s t.id x)
      ⊎ (contains (cert.template.serial ∷ []) x ≡ true)
unfolding contains
put_at t plan target cert s x =
    let rec = record_of t plan target cert in
    let after = lookup-insert rec.serial x rec (s.certs t.id).docs in
    elim (Bool-cases (str_eq cert.template.serial x)) [
      | inl hit ↦ inr (ground (arith, hit))
      | inr miss ↦ inl (ground (arith, after, miss, eq_refl t.id))
    ]

unchanged_at :
    (s : CaState) (tenant x : String)
    → cert_at (with_certs tenant (s.certs tenant) s) tenant x ≡ cert_at s tenant x
unchanged_at s tenant x = ground (arith, eq_refl tenant)

-- Unless the store stored a record and reported a failure, the records are those of before but for
-- the serial that is left to the request.
keep_one_at :
    (c : Call) (t : Tenant) (plan : Plan) (target : String) (cert : Cert) (s : CaState) (x : String)
    (f g : Fault)
    → f ≢ ghost
    → let (r, s') = keep_one (record c { stored = f; audited = g }) t plan target cert s in
      (cert_at s' t.id x ≡ cert_at s t.id x) ⊎ (contains (left_by r) x ≡ true)
unfolding keep_one put log_ca
keep_one_at c t plan target cert s x ghost g safe = absurd (safe refl)
keep_one_at c t plan target cert s x refused g safe = inl (unchanged_at s t.id x)
keep_one_at c t plan target cert s x fine fine safe = put_at t plan target cert s x
keep_one_at c t plan target cert s x fine refused safe = put_at t plan target cert s x
keep_one_at c t plan target cert s x fine ghost safe = put_at t plan target cert s x

module _ (pki : Pki) (t : Tenant) (root : Root) (plan : Plan) where
  pub issue_one_at :
      (c : Call) (target : String) (s : CaState) (x : String)
      → c.stored ≢ ghost
      → let (r, s') = issue_one pki c t root plan target s in
        (cert_at s' t.id x ≡ cert_at s t.id x) ⊎ (contains (left_by r) x ≡ true)
  unfolding issue_one lookup contains
  issue_one_at c target s x safe = elim (Result-cases (sign_one pki c t root plan target)) [
    | inl (e, failed) ↦ rw (issue_one, failed) (inl refl)
    | inr (cert, signed) ↦
        rw (issue_one, signed) (keep_one_at c t plan target cert s x c.stored c.audited safe)
  ]
