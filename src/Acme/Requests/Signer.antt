-- ===== src/Acme/Requests/Signer.antt =====
-- Who has signed a request, and with what.

use mnemoca.Prelude.{
  sym, String, true, Option, none, some, Result, ok, err, ◌≡◌, ◌⊎◌, inl, inr, arith, str_eq, eq_iff,
  Result-cases, Option-cases, Bool-cases, lookup, cut_prefix, length, take, drop, ap, ◌∙◌,
}
use mnemoca.Store.Fault.{StoreError}
use mnemoca.Store.Bucket.{Bucket, get}
use mnemoca.Store.Bucket.Laws.{get_found}
use mnemoca.Audit.Record.{Bytes}
use mnemoca.Acme.Problem.{Account}
use mnemoca.Acme.Keys.{Codec, PublicKey, ec, rsa, okp, verify_jws_signature, set_bytes}
use mnemoca.Acme.Requests.{if_valid, Wire, JwsProtected, Visit, account_by_kid, signer_of}

module _ (l : Codec) where
  -- The signature is by the key, with the algorithm that belongs to its type.
  abbrev pub IsSigned : String → PublicKey → Bytes → Bytes → Type 0
  IsSigned alg (ec x y) input sig =
      (alg ≡ "ES256")
      × (length sig ≡ 64)
      × (l.ecdsa_verify x y (l.sha256 input) (set_bytes (take 32 sig)) (set_bytes (drop 32 sig))
          ≡ true)
  IsSigned alg (rsa n e) input sig =
      (alg ≡ "RS256") × (l.rsa_verify n e (l.sha256 input) sig ≡ true)
  IsSigned alg (okp x) input sig = (alg ≡ "EdDSA") × (l.ed25519_verify x input sig ≡ true)

  pub verify_jws_signature-IsSigned :
      (alg : String) (key : PublicKey) (input sig : Bytes)
      → verify_jws_signature l alg key input sig ≡ ok tt
      → IsSigned alg key input sig
  unfolding verify_jws_signature
  verify_jws_signature-IsSigned alg (ec x y) input sig h =
      ground (arith, h, eq_iff alg "ES256", eq_iff alg "RS256", eq_iff alg "EdDSA")
  verify_jws_signature-IsSigned alg (rsa n e) input sig h =
      ground (arith, h, eq_iff alg "ES256", eq_iff alg "RS256", eq_iff alg "EdDSA")
  verify_jws_signature-IsSigned alg (okp x) input sig h =
      ground (arith, h, eq_iff alg "ES256", eq_iff alg "RS256", eq_iff alg "EdDSA")

  -- Who has signed: a bare key where that is allowed, or a stored valid account of the tenant.
  abbrev pub IsIdentified : Visit → JwsProtected → Bucket Account → Option Account → String → Type 0
  IsIdentified v hdr accounts account jwk =
      ((account ≡ none) × (v.allow_jwk ≡ true) × (hdr.kid ≡ "") × (jwk ≡ hdr.jwk))
      ⊎ ((acct : Account) × (id : String) × (account ≡ some acct)
          × (hdr.jwk ≡ "")
          × (cut_prefix v.account_prefix hdr.kid ≡ some id)
          × (lookup id accounts.docs ≡ some acct)
          × (acct.status ≡ "valid")
          × (jwk ≡ acct.jwk))

module _ (l : Codec) (w : Wire) where
  if_valid_ok :
      (r : Result StoreError Account) (acct : Account)
      → if_valid l w r ≡ ok acct
      → (r ≡ ok acct) × (acct.status ≡ "valid")
  if_valid_ok (err e) acct h = absurd (ground (arith, h))
  if_valid_ok (ok old) acct h = elim (Bool-cases (str_eq old.status "valid")) [
    | inl good ↦
        let same : old ≡ acct = ground (arith, h, good) in
        (ap ok same, ap (λ (a : Account). a.status) (sym same) ∙ (eq_iff old.status "valid").0 good)
    | inr bad ↦ absurd (ground (arith, h, bad))
  ]

  account_by_kid_found :
      (v : Visit) (kid : String) (accounts : Bucket Account) (acct : Account)
      → account_by_kid l w v kid accounts ≡ ok acct
      → (id : String) × (cut_prefix v.account_prefix kid ≡ some id)
        × (lookup id accounts.docs ≡ some acct)
        × (acct.status ≡ "valid")
  unfolding account_by_kid
  account_by_kid_found v kid accounts acct h =
      elim (Option-cases (cut_prefix v.account_prefix kid)) [
        | inl e ↦ absurd (ground (arith, h, e))
        | inr (id, e) ↦
            let (found, good) =
              if_valid_ok (get v.on_account id accounts) acct (ground (arith, h, e)) in
            (id, e, get_found v.on_account id accounts found, good)
      ]

  pub signer_of-IsIdentified :
      (v : Visit) (hdr : JwsProtected) (accounts : Bucket Account) (account : Option Account)
      (jwk : String)
      → signer_of l w v hdr accounts ≡ ok (account, jwk)
      → IsIdentified l v hdr accounts account jwk
  unfolding signer_of
  signer_of-IsIdentified v hdr accounts account jwk h = elim (Bool-cases (str_eq hdr.jwk "")) [
    | inl bare ↦ elim (Bool-cases (str_eq hdr.kid "")) [
      | inl neither ↦ absurd (ground (arith, h, bare, neither))
      | inr named ↦ elim (Result-cases (account_by_kid l w v hdr.kid accounts)) [
        | inl (e, bad) ↦ absurd (ground (arith, h, bare, named, bad))
        | inr (acct, good) ↦
            let (id, cut, stored, valid) = account_by_kid_found v hdr.kid accounts acct good in
            inr (
              acct,
              id,
              ground (arith, h, bare, named, good),
              (eq_iff hdr.jwk "").0 bare,
              cut,
              stored,
              valid,
              ground (arith, h, bare, named, good),
            )
      ]
    ]
    | inr there ↦ inl (ground (arith, h, there, eq_iff hdr.kid ""))
  ]
