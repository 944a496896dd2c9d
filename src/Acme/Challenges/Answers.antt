-- ===== src/Acme/Challenges/Answers.antt =====
-- Who may answer a challenge, and what a successful attempt has shown.
use Prim.Native.String.{◌++◌ as text_append}
use mnemoca.Prelude.{
  String, true, Option, some, List, [], ◌∷◌, Result, ok, err, ◌≡◌, refl, ◌⊎◌, inl, inr, arith,
  eq_iff, ap, Result-cases, Option-cases, Bool-cases, lookup, str_eq, contains, take, cut_prefix,
  trim_space,
}
use mathlib.Core.Path.{subst}
use mnemoca.Store.Fault.{StoreError}
use mnemoca.Store.Bucket.{get}
use mnemoca.Store.Bucket.Laws.{get_found}
use mnemoca.Audit.Record.{Bytes}
use mnemoca.Acme.Problem.{Account}
use mnemoca.Acme.Keys.{Codec}
use mnemoca.Acme.Orders.{Authz, Status}
use mnemoca.Acme.Finalize.{is_owner}
use mnemoca.Acme.Finalize.Admitted.{is_owner-some}
use mnemoca.Acme.Challenges.{
  Failure, Challenge, Reply, Network, Trials, ChallengeCall, without_star, judged_authz,
  found_challenge, found_authz, load_challenge, is_asked, key_authz, check_http01, check_dns01,
  attempt,
}

pub judged_authz_id : (v : Result Failure (Unit {0})) (az : Authz) → (judged_authz v az).id ≡ az.id
judged_authz_id (err e) az = refl
judged_authz_id (ok _) az = refl

found_challenge_ok :
    (r : Result StoreError Challenge) (ch : Challenge) → found_challenge r ≡ ok ch → r ≡ ok ch
found_challenge_ok (err e) ch h = absurd (ground (arith, h))
found_challenge_ok (ok c) ch h = ground (arith, h)

found_authz_ok : (r : Result StoreError Authz) (az : Authz) → found_authz r ≡ ok az → r ≡ ok az
found_authz_ok (err e) az h = absurd (ground (arith, h))
found_authz_ok (ok a) az h = ground (arith, h)

pub is_asked_pending :
    (payload : Bytes) (s : Status) → is_asked payload s ≡ true → s ≡ Status.pending
is_asked_pending [] s h = absurd (ground (arith, h))
is_asked_pending (b ∷ bs) Status.pending h = refl
is_asked_pending (b ∷ bs) Status.ready h = absurd (ground (arith, h))
is_asked_pending (b ∷ bs) Status.valid h = absurd (ground (arith, h))
is_asked_pending (b ∷ bs) Status.invalid h = absurd (ground (arith, h))

-- The challenge and its authorization are stored, and the account is the owner.
abbrev pub IsOwn : Option Account → String → Trials → Challenge → Authz → Type 0
IsOwn account id s ch az =
    (acct : Account) × (account ≡ some acct)
    × (lookup id s.challenges.docs ≡ some ch)
    × (lookup ch.authz_id s.authzs.docs ≡ some az)
    × (az.account_id ≡ acct.id)

pub load_challenge-IsOwn :
    (c : ChallengeCall) (account : Option Account) (id : String) (s : Trials) (ch : Challenge)
    (az : Authz)
    → load_challenge c account id s ≡ ok (ch, az)
    → IsOwn account id s ch az
unfolding load_challenge
load_challenge-IsOwn c account id s ch az h =
    elim (Result-cases (found_challenge (get c.on_challenge id s.challenges))) [
      | inl (e, bad) ↦ absurd (ground (arith, h, bad))
      | inr (ch', e₁) ↦ elim (Result-cases (found_authz (get c.on_authz ch'.authz_id s.authzs))) [
        | inl (e, bad) ↦ absurd (ground (arith, h, e₁, bad))
        | inr (az', e₂) ↦ elim (Bool-cases (is_owner account az'.account_id)) [
          | inr other ↦ absurd (ground (arith, h, e₁, e₂, other))
          | inl mine ↦
              let same_ch : ch' ≡ ch = ground (arith, h, e₁, e₂, mine) in
              let same_az : az' ≡ az = ground (arith, h, e₁, e₂, mine) in
              let (acct, there, owner) = is_owner-some account az'.account_id mine in
              subst (λ x. IsOwn account id s ch x) same_az
                (subst (λ x. IsOwn account id s x az') same_ch
                  (
                    acct,
                    there,
                    get_found c.on_challenge id s.challenges (found_challenge_ok _ ch' e₁),
                    get_found c.on_authz ch'.authz_id s.authzs (found_authz_ok _ az' e₂),
                    owner,
                  ))
        ]
      ]
    ]

module _ (l : Codec) (n : Network) where
  -- The host has served the account's key authorization for the challenge's token, or has its digest
  -- in a TXT record.
  abbrev pub IsAnswered : Account → Authz → Challenge → Type 0
  IsAnswered acct az ch =
      ((ch.typ ≡ "http-01")
        × (reply : Reply) × (body : Bytes) × (n.fetch az.identifier ch.token ≡ some reply)
        × (reply.code ≡ 200)
        × (reply.body ≡ some body)
        × (trim_space (n.text (take 8192 body)) ≡ key_authz l n ch.token acct))
      ⊎ ((ch.typ ≡ "dns-01")
          × (txts : List String) × (n.txt (
                text_append "_acme-challenge."
                  (without_star (cut_prefix "*." az.identifier) az.identifier))
              ≡ some txts)
          × (contains txts (l.base64 (l.sha256 (l.utf8 (key_authz l n ch.token acct)))) ≡ true))

  check_http01_ok :
      (host token expected : String)
      → check_http01 l n host token expected ≡ ok tt
      → (reply : Reply) × (body : Bytes) × (n.fetch host token ≡ some reply)
        × (reply.code ≡ 200)
        × (reply.body ≡ some body)
        × (trim_space (n.text (take 8192 body)) ≡ expected)
  unfolding check_http01
  check_http01_ok host token expected h = elim (Option-cases (n.fetch host token)) [
    | inl bad ↦ absurd (ground (arith, h, bad))
    | inr (reply, e₁) ↦ elim (Option-cases reply.body) [
      | inl bad ↦ absurd (ground (arith, h, e₁, bad))
      | inr (body, e₂) ↦
          let code : reply.code ≡ 200 = ground (arith, h, e₁, e₂) in
          let same : str_eq (trim_space (n.text (take 8192 body))) expected ≡ true =
            ground (arith, h, e₁, e₂, code) in
          (reply, body, e₁, code, e₂, (eq_iff _ expected).0 same)
    ]
  ]

  check_dns01_ok :
      (host expected : String)
      → check_dns01 l n host expected ≡ ok tt
      → (txts : List String) × (n.txt (text_append "_acme-challenge." host) ≡ some txts)
        × (contains txts (l.base64 (l.sha256 (l.utf8 expected))) ≡ true)
  unfolding check_dns01
  check_dns01_ok host expected h =
      elim (Option-cases (n.txt (text_append "_acme-challenge." host))) [
        | inl bad ↦ absurd (ground (arith, h, bad))
        | inr (txts, e) ↦ (txts, e, ground (arith, h, e))
      ]

  attempt-IsAnswered :
      (acct : Account) (az : Authz) (ch : Challenge)
      → attempt l n acct az ch ≡ ok tt
      → IsAnswered acct az ch
  unfolding attempt
  attempt-IsAnswered acct az ch h = elim (Bool-cases (str_eq ch.typ "http-01")) [
    | inl http ↦
        let (reply, body, fetched, code, read, same) =
          check_http01_ok az.identifier ch.token (key_authz l n ch.token acct)
            (ground (arith, h, http)) in
        inl ((eq_iff ch.typ "http-01").0 http, reply, body, fetched, code, read, same)
    | inr other ↦ elim (Bool-cases (str_eq ch.typ "dns-01")) [
      | inl dns ↦
          let (txts, looked_up, there) =
            check_dns01_ok (without_star (cut_prefix "*." az.identifier) az.identifier)
              (key_authz l n ch.token acct) (ground (arith, h, other, dns)) in
          inr ((eq_iff ch.typ "dns-01").0 dns, txts, looked_up, there)
      | inr neither ↦ absurd (ground (arith, h, other, neither))
    ]
  ]

  -- The authorization is valid and its challenge answered, or it is invalid.
  abbrev pub IsJudged : Account → Authz → Challenge → Authz → Type 0
  IsJudged acct az ch x =
      ((x ≡ record az { status = Status.valid }) × IsAnswered acct az ch)
      ⊎ (x ≡ record az { status = Status.invalid })

  pub judged_authz-IsJudged :
      (acct : Account) (az : Authz) (ch : Challenge)
      → IsJudged acct az ch (judged_authz (attempt l n acct az ch) az)
  judged_authz-IsJudged acct az ch = elim (Result-cases (attempt l n acct az ch)) [
    | inl (e, bad) ↦ inr (ap (λ v. judged_authz v az) bad)
    | inr (u, good) ↦ inl (ap (λ v. judged_authz v az) good, attempt-IsAnswered acct az ch good)
  ]
