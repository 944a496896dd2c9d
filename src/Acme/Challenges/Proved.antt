-- ===== src/Acme/Challenges/Proved.antt =====
-- What a validated authorization has shown.

use mnemoca.Prelude.{
  String, Option, some, ◌≡◌, refl, ◌⊎◌, inl, inr, arith, ap, sym, ◌∙◌, Result-cases, Bool-cases,
  lookup,
}
use mathlib.Core.Path.{subst}
use mnemoca.Store.Bucket.{Bucket, put}
use mnemoca.Store.Bucket.Laws.{put-lookup}
use mnemoca.Audit.Record.{Bytes}
use mnemoca.Acme.Problem.{Account}
use mnemoca.Acme.Keys.{Codec}
use mnemoca.Acme.Orders.{Authz, Status, update_order_status}
use mnemoca.Acme.Challenges.{
  Challenge, Network, Trials, ChallengeCall, judged, judged_authz, load_challenge, is_asked,
  attempt, store_outcome, validate_challenge, answer_challenge, handle_challenge,
}
use mnemoca.Acme.Challenges.Answers.{
  judged_authz_id, is_asked_pending, IsOwn, load_challenge-IsOwn, IsJudged, judged_authz-IsJudged,
}

module _ (l : Codec) (n : Network) where
  store_outcome_authzs :
      (c : ChallengeCall) (ch : Challenge) (az : Authz) (s : Trials)
      → let s' = (store_outcome l n c ch az s).1 in
        (s'.authzs ≡ s.authzs) ⊎ (s'.authzs ≡ (put c.on_store_authz az.id az s.authzs).1)
  unfolding store_outcome
  store_outcome_authzs c ch az s =
      elim (Result-cases (put c.on_store_challenge ch.id ch s.challenges).0) [
        | inl (e, bad) ↦ inl (rw (bad, store_outcome) refl)
        | inr (_, stored) ↦ elim (Result-cases (put c.on_store_authz az.id az s.authzs).0) [
          | inl (e, bad) ↦ inr (rw (stored, bad, store_outcome) refl)
          | inr (_, done) ↦ inr (rw (stored, done, store_outcome) refl)
        ]
      ]

  pub store_outcome_orders :
      (c : ChallengeCall) (ch : Challenge) (az : Authz) (s : Trials)
      → let s' = (store_outcome l n c ch az s).1 in
        (s'.orders ≡ s.orders)
        ⊎ (s'.orders
            ≡ (update_order_status c.on_order c.on_scan c.on_store_order az.order_id s'.authzs
                s.orders).1)
  unfolding store_outcome
  store_outcome_orders c ch az s =
      elim (Result-cases (put c.on_store_challenge ch.id ch s.challenges).0) [
        | inl (e, bad) ↦ inl (rw (bad, store_outcome) refl)
        | inr (_, stored) ↦ elim (Result-cases (put c.on_store_authz az.id az s.authzs).0) [
          | inl (e, bad) ↦ inl (rw (stored, bad, store_outcome) refl)
          | inr (_, done) ↦ inr (rw (stored, done, store_outcome) refl)
        ]
      ]

  -- A request to a challenge leaves everything as it was, or stores the outcome of its attempt.
  pub handle_challenge_cases :
      (c : ChallengeCall) (account : Option Account) (id : String) (payload : Bytes) (s : Trials)
      → let s' = (handle_challenge l n c account id payload s).1 in
        (s' ≡ s)
        ⊎ ((acct : Account) × (ch : Challenge) × (az : Authz) × (account ≡ some acct)
            × IsOwn account id s ch az
            × (ch.status ≡ Status.pending)
            × (s'
                ≡ (store_outcome l n c
                    (judged c.now (attempt l n acct az ch) ch)
                    (judged_authz (attempt l n acct az ch) az)
                    s).1))
  unfolding handle_challenge answer_challenge validate_challenge
  handle_challenge_cases c account id payload s =
      elim (Result-cases (load_challenge c account id s)) [
        | inl (e, bad) ↦ inl (rw (bad, handle_challenge) refl)
        | inr ((ch, az), loaded) ↦
            let own = load_challenge-IsOwn c account id s ch az loaded in
            let (acct, there, _, _, _) = own in
            elim (Bool-cases (is_asked payload ch.status)) [
              | inr idle ↦ inl (ground (arith, loaded, there, idle))
              | inl asked ↦ elim (Bool-cases (n.is_json payload)) [
                | inr broken ↦ inl (ground (arith, loaded, there, asked, broken))
                | inl read ↦ inr (
                  acct,
                  ch,
                  az,
                  there,
                  own,
                  is_asked_pending payload ch.status asked,
                  ground (arith, loaded, there, asked, read),
                )
              ]
            ]
      ]

  -- An authorization that a request to a challenge changes is the requesting account's own and that of
  -- a stored pending challenge, and it is stored as valid only if the challenge was answered.
  pub handle_challenge-IsJudged :
      (c : ChallengeCall) (account : Option Account) (id : String) (payload : Bytes) (s : Trials)
      (az_id : String) (x : Authz)
      → lookup az_id (handle_challenge l n c account id payload s).1.authzs.docs ≡ some x
      → (lookup az_id s.authzs.docs ≡ some x)
        ⊎ ((acct : Account) × (ch : Challenge) × (az : Authz) × (account ≡ some acct)
            × IsOwn account id s ch az
            × (ch.status ≡ Status.pending)
            × (az_id ≡ az.id)
            × IsJudged l n acct az ch x)
  handle_challenge-IsJudged c account id payload s az_id x h =
      elim (handle_challenge_cases c account id payload s) [
        | inl kept ↦ inl (ap (λ (t : Trials). lookup az_id t.authzs.docs) (sym kept) ∙ h)
        | inr (acct, ch, az, there, own, waited, after) ↦
            let az' = judged_authz (attempt l n acct az ch) az in
            let found = ap (λ (t : Trials). lookup az_id t.authzs.docs) (sym after) ∙ h in
            elim (store_outcome_authzs c (judged c.now (attempt l n acct az ch) ch) az' s) [
              | inl same ↦ inl (ap (λ (b : Bucket Authz). lookup az_id b.docs) (sym same) ∙ found)
              | inr stored ↦
                  let found' =
                    ap (λ (b : Bucket Authz). lookup az_id b.docs) (sym stored) ∙ found in
                  elim (put-lookup c.on_store_authz az'.id az' s.authzs az_id) [
                    | inl same ↦ inl (sym same ∙ found')
                    | inr (at, here) ↦
                        let made : az' ≡ x = ground (arith, here, found') in
                        inr (
                          acct,
                          ch,
                          az,
                          there,
                          own,
                          waited,
                          at ∙ judged_authz_id (attempt l n acct az ch) az,
                          subst (λ y. IsJudged l n acct az ch y) made
                              (judged_authz-IsJudged l n acct az ch),
                        )
                  ]
            ]
      ]
