-- ===== src/Ca/Crl/Entries.antt =====
-- Which certificates a revocation list names.
use mnemoca.Store.Bucket.{next_seq, for_each}
use mnemoca.Ca.State.{log_ca, CertRecord}
use mnemoca.Ca.Issue.{CaError}
use mnemoca.Ca.Crl.{
  err, log_ca, next_seq, Crl, build_crl, CaState, Bool, CrlCalls, Pki, crl_entries, String,
  RevokedEntry, collect, is_listed, is_number, entry_of,
}
use mnemoca.Ca.Crl.{chain_or_primary}
use mnemoca.Prelude.{
  str_eq, ◌&&◌, eq_refl, Result-cases, ◌^◌, ◌%◌, ◌+◌, if◌then◌else◌, sym, ◌∙◌, ◌≡◌, arith, Dict,
  List, [], ◌∷◌, ◌++◌, ok, append-nil, append_assoc, refl, Bool-cases, inl, inr,
}

-- the entries of the records of a chain that are revoked, in the order of their keys
unfoldable pub listed : String → Dict CertRecord → List RevokedEntry
listed chain [] = []
listed chain ((key, rec) ∷ docs) =
    let rest = listed chain docs in
    if rec.revoked && str_eq rec.chain (chain_or_primary chain) then entry_of rec ∷ rest else rest

-- A scan that succeeds has collected exactly the entries of the revoked records of the chain.
pub collect-listed :
    (chain : String) (docs : Dict CertRecord) (out : List RevokedEntry)
    {entries : List RevokedEntry}
    → for_each (collect chain) out docs ≡ ok entries
    → entries ≡ out ++ listed chain docs
unfolding for_each collect listed
collect-listed chain [] out {entries} h = sym (ground (arith, h)) ∙ sym (append-nil out)
collect-listed chain ((key, rec) ∷ docs) out {entries} h = elim (Bool-cases (is_listed chain rec)) [
  | inr off ↦ rw off (collect-listed chain docs out (ground (arith, h, off)))
  | inl on ↦ elim (Bool-cases (is_number rec.serial)) [
    | inr corrupt ↦ absurd (ground (arith, h, on, corrupt))
    | inl sound ↦ rw on (
        collect-listed chain docs (out ++ entry_of rec ∷ []) (ground (arith, h, on, sound))
        ∙ append_assoc out (entry_of rec ∷ []) (listed chain docs))
  ]
]

scanned :
    (pki : Pki) (c : CrlCalls) (tenant chain : String) (s : CaState) {entries : List RevokedEntry}
    → crl_entries pki c tenant chain s ≡ ok entries
    → for_each (collect chain) [] (s.certs tenant).docs ≡ ok entries
unfolding crl_entries
scanned pki c tenant chain s h = ground (arith, h)

published :
    (pki : Pki) (signs : Bool) (c : CrlCalls) (tenant chain : String) (s : CaState)
    {entries : List RevokedEntry} {crl : Crl}
    → crl_entries pki c tenant chain s ≡ ok entries
    → (build_crl pki signs c tenant chain s).0 ≡ ok crl
    → (crl.entries ≡ entries)
      × (crl.number ≡ ((s.crls tenant).seq + 1) % 2 ^ 64)
      × (((build_crl pki signs c tenant chain s).1.crls tenant).seq ≡ crl.number)
unfolding build_crl next_seq log_ca
published pki signs c tenant chain s scan h = ground (arith, scan, h, eq_refl tenant)

unscanned :
    (pki : Pki) (signs : Bool) (c : CrlCalls) (tenant chain : String) (s : CaState) {e : CaError}
    → crl_entries pki c tenant chain s ≡ err e
    → (build_crl pki signs c tenant chain s).0 ≡ err e
unfolding build_crl
unscanned pki signs c tenant chain s h = rw (build_crl, h) refl

-- A revocation list that is published names exactly the revoked certificates of its chain, in the
-- order of their serials' texts, and its number is one more than the tenant's counter was, modulo
-- 2^64, and is the counter afterwards.
pub build_crl_lem :
    (pki : Pki) (signs : Bool) (c : CrlCalls) (tenant chain : String) (s : CaState) {crl : Crl}
    → (build_crl pki signs c tenant chain s).0 ≡ ok crl
    → (crl.entries ≡ listed chain (s.certs tenant).docs)
      × (crl.number ≡ ((s.crls tenant).seq + 1) % 2 ^ 64)
      × (((build_crl pki signs c tenant chain s).1.crls tenant).seq ≡ crl.number)
build_crl_lem pki signs c tenant chain s {crl} h =
    elim (Result-cases (crl_entries pki c tenant chain s)) [
      | inl (e, failed) ↦
          absurd (ground (arith, sym h ∙ unscanned pki signs c tenant chain s failed))
      | inr (entries, scan) ↦
          let (names, number, counter) = published pki signs c tenant chain s scan h in
          (
            names
                ∙ collect-listed chain (s.certs tenant).docs [] (scanned pki c tenant chain s scan),
            number,
            counter,
          )
    ]
