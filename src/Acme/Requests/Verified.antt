-- ===== src/Acme/Requests/Verified.antt =====
-- What a verified request has shown, and that it is verified once.
use Prim.Native.String.{◌++◌ as text_append}
use mnemoca.Prelude.{
  sym, Bool, true, false, some, Result, ok, err, ◌≡◌, ◌≢◌, refl, inl, inr, arith, eq_iff,
  Result-cases, Option-cases, lookup, none, ◌<◌, ap, ◌∙◌,
}
use mathlib.Core.Path.{subst}
use mnemoca.Store.Fault.{StoreError}
use mnemoca.Store.Bucket.{Bucket}
use mnemoca.Audit.Record.{Bytes}
use mnemoca.Acme.Problem.{AcmeError, Account}
use mnemoca.Acme.Keys.{jwk_thumbprint, Codec, parse_jwk, verify_jws_signature}
use mnemoca.Acme.Nonces.{NonceRec, consume_nonce, consume_nonce_used, consume_nonce_twice}
use mnemoca.Acme.Requests.Signer.{
  IsSigned, verify_jws_signature-IsSigned, IsIdentified, signer_of-IsIdentified,
}
use mnemoca.Acme.Requests.{
  Wire, HttpRequest, FlatJws, JwsProtected, JwsRequest, Visit, open_request, signer_of,
  check_signed, if_fresh, verify_request,
}

module _ (l : Codec) (w : Wire) where
  -- A request that is verified has a nonce that was stored and had not expired and that is not stored
  -- any more, the URL that it was sent to, exactly one of a key and an account that may sign it, the
  -- thumbprint and a signature of that key.
  abbrev pub IsVerified :
      Visit → HttpRequest → Bucket Account → Bucket NonceRec → Bucket NonceRec → JwsRequest → Type 0
  IsVerified v r accounts nonces used req =
      (jws : FlatJws) × (hdr : JwsProtected) × (sig : Bytes) × (open_request l w r ≡ ok (jws, hdr))
      × (hdr.url ≡ r.url)
      × ((rec : NonceRec) × (lookup hdr.nonce nonces.docs ≡ some rec)
          × (v.now < rec.expires)
          × (lookup hdr.nonce used.docs ≡ none))
      × IsIdentified l v hdr accounts req.account req.jwk
      × (parse_jwk l req.jwk ≡ ok req.key)
      × (jwk_thumbprint l req.jwk ≡ ok req.thumb)
      × (l.unbase64 jws.signature ≡ some sig)
      × IsSigned l hdr.alg req.key
          (l.utf8 (text_append jws.protected (text_append "." jws.payload))) sig

  open_request_url :
      (r : HttpRequest) (jws : FlatJws) (hdr : JwsProtected)
      → open_request l w r ≡ ok (jws, hdr)
      → hdr.url ≡ r.url
  unfolding open_request
  open_request_url r jws hdr h = ground (arith, h, eq_iff hdr.url r.url)

  check_signed_ok :
      (v : Visit) (jws : FlatJws) (hdr : JwsProtected) (accounts : Bucket Account)
      (req : JwsRequest)
      → check_signed l w v jws hdr accounts ≡ ok req
      → (sig : Bytes) × IsIdentified l v hdr accounts req.account req.jwk
        × (parse_jwk l req.jwk ≡ ok req.key)
        × (jwk_thumbprint l req.jwk ≡ ok req.thumb)
        × (l.unbase64 jws.signature ≡ some sig)
        × IsSigned l hdr.alg req.key
            (l.utf8 (text_append jws.protected (text_append "." jws.payload)))
            sig
  unfolding check_signed
  check_signed_ok v jws hdr accounts req h = elim (Result-cases (signer_of l w v hdr accounts)) [
    | inl (e, bad) ↦ absurd (ground (arith, h, bad))
    | inr ((account, jwk), who) ↦ elim (Result-cases (parse_jwk l jwk)) [
      | inl (e, bad) ↦ absurd (ground (arith, h, who, bad))
      | inr (key, parsed) ↦ elim (Result-cases (jwk_thumbprint l jwk)) [
        | inl (e, bad) ↦ absurd (ground (arith, h, who, parsed, bad))
        | inr (thumb, printed) ↦ elim (Option-cases (l.unbase64 jws.signature)) [
          | inl bad ↦ absurd (ground (arith, h, who, parsed, printed, bad))
          | inr (sig, decoded) ↦
              let input = l.utf8 (text_append jws.protected (text_append "." jws.payload)) in
              let signed : verify_jws_signature l hdr.alg key input sig ≡ ok tt =
                ground (arith, h, who, parsed, printed, decoded) in
              let by = verify_jws_signature-IsSigned l hdr.alg key input sig signed in
              let same_account : account ≡ req.account =
                ground (arith, h, who, parsed, printed, decoded, signed) in
              let same_jwk : jwk ≡ req.jwk =
                ground (arith, h, who, parsed, printed, decoded, signed) in
              let same_key : key ≡ req.key =
                ground (arith, h, who, parsed, printed, decoded, signed) in
              let same_thumb : thumb ≡ req.thumb =
                ground (arith, h, who, parsed, printed, decoded, signed) in
              (
                sig,
                subst (λ a. IsIdentified l v hdr accounts a req.jwk) same_account
                    (subst (λ x. IsIdentified l v hdr accounts account x) same_jwk
                      (signer_of-IsIdentified l w v hdr accounts account jwk who)),
                ap (parse_jwk l) (sym same_jwk) ∙ parsed ∙ ap ok same_key,
                ap (jwk_thumbprint l) (sym same_jwk) ∙ printed ∙ ap ok same_thumb,
                decoded,
                subst (λ x. IsSigned l hdr.alg x input sig) same_key by,
              )
        ]
      ]
    ]
  ]

  if_fresh_ok :
      (r : Result StoreError Bool) (next : Result AcmeError JwsRequest) (req : JwsRequest)
      → if_fresh l w r next ≡ ok req
      → (r ≡ ok true) × (next ≡ ok req)
  if_fresh_ok (err e) next req h = absurd (ground (arith, h))
  if_fresh_ok (ok false) next req h = absurd (ground (arith, h))
  if_fresh_ok (ok true) next req h = (refl, h)

  pub verify_request-IsVerified :
      (v : Visit) (r : HttpRequest) (accounts : Bucket Account) (nonces : Bucket NonceRec)
      (req : JwsRequest)
      → let (answer, used) = verify_request l w v r accounts nonces in
        answer ≡ ok req → IsVerified v r accounts nonces used req
  unfolding verify_request
  verify_request-IsVerified v r accounts nonces req h = elim (Result-cases (open_request l w r)) [
    | inl (e, bad) ↦ absurd (ground (arith, h, bad))
    | inr ((jws, hdr), opened) ↦
        let (fresh, next) =
          if_fresh_ok (consume_nonce v.on_nonce v.now hdr.nonce nonces).0
            (check_signed l w v jws hdr accounts) req (ground (arith, h, opened)) in
        let (rec, stored, live, gone) =
          consume_nonce_used v.on_nonce v.now hdr.nonce nonces fresh in
        let left : (verify_request l w v r accounts nonces).1
            ≡ (consume_nonce v.on_nonce v.now hdr.nonce nonces).1 =
          rw (opened, verify_request) refl in
        let (sig, who, parsed, printed, decoded, signed) =
          check_signed_ok v jws hdr accounts req next in
        (
          jws,
          hdr,
          sig,
          opened,
          open_request_url r jws hdr opened,
          (rec, stored, live, ap (λ (b : Bucket NonceRec). lookup hdr.nonce b.docs) left ∙ gone),
          who,
          parsed,
          printed,
          decoded,
          signed,
        )
  ]

  -- The same request is not verified twice, whatever changes in between but the nonces.
  pub verify_request_once :
      (v v' : Visit) (r : HttpRequest) (accounts accounts' : Bucket Account)
      (nonces : Bucket NonceRec) (req req' : JwsRequest)
      → let (answer, used) = verify_request l w v r accounts nonces in
        answer ≡ ok req → (verify_request l w v' r accounts' used).0 ≢ ok req'
  unfolding verify_request
  verify_request_once v v' r accounts accounts' nonces req req' h h' =
      elim (Result-cases (open_request l w r)) [
        | inl (e, bad) ↦ ground (arith, h, bad)
        | inr ((jws, hdr), opened) ↦
            let first = consume_nonce v.on_nonce v.now hdr.nonce nonces in
            let (fresh, _) =
              if_fresh_ok first.0 (check_signed l w v jws hdr accounts) req
                (ground (arith, h, opened)) in
            let (again, _) =
              if_fresh_ok (consume_nonce v'.on_nonce v'.now hdr.nonce first.1).0
                (check_signed l w v' jws hdr accounts') req' (ground (arith, h', opened)) in
            consume_nonce_twice v.on_nonce v'.on_nonce v.now v'.now hdr.nonce nonces fresh again
      ]
