-- ===== src/Api/Revocation/Changes.antt =====
-- The handlers' updates of the operator set, with any outcome, keep the invariant.
use mnemoca.Prelude.{◌∙◌, ℕ, String, ◌≡◌, ap, inl, inr, true, false, set_at, Result, ok, err, is_ok}
use mnemoca.Store.Fault.{Fault, UpdateError, of_store, rejected}
use mnemoca.Api.Key.{ApiKey}
use mnemoca.Api.Operators.{OperatorSet, OperatorError, begin_revoke, finish_revoke, add_operator}
use mnemoca.Api.State.{Keys, update_operators}
use mnemoca.Api.Revocation.{after_claim, Phase, claiming, auditing}
use mnemoca.Api.Revocation.Phases.{holds, adds, Within, IsQuiet, IsQuiet-Within}
use mnemoca.Api.Revocation.Invariant.{Inv-frame}
use mnemoca.Api.Revocation.Updates.{
  IsSafe, moved, done-IsQuiet, update_operators_cases, update_operators_rest,
}
use mnemoca.Api.Revocation.Claim.{Inv-claim}
use mnemoca.Api.Revocation.Settle.{Inv-finish, Inv-add}

after_claim_failed :
    (id : String) (k : ApiKey) (r : Result (UpdateError OperatorError) (Unit {0}))
    → is_ok r ≡ false
    → IsQuiet (after_claim id k r)
unfolding after_claim
after_claim_failed id k (ok _) h = cc
after_claim_failed id k (err (rejected _)) h = done-IsQuiet 409
after_claim_failed id k (err (of_store _)) h = done-IsQuiet 500

pub Within-refl : (p : Phase) → Within p p
Within-refl p = record {
  less_held = λ id h. h;
  less_added = λ id h. h;
  less_created = λ id h. h;
  less_stored = λ id h. h;
  less_named = λ id h. h;
  less_seen = λ id op h. h;
}

after_claim-Within :
    (id : String) (k : ApiKey) (r : Result (UpdateError OperatorError) (Unit {0}))
    → Within (after_claim id k r) (auditing id k)
unfolding after_claim
after_claim-Within id k (ok _) = Within-refl _
after_claim-Within id k (err (rejected _)) = IsQuiet-Within _ (done-IsQuiet 409)
after_claim-Within id k (err (of_store _)) = IsQuiet-Within _ (done-IsQuiet 500)

module _ (f : Fault) (s : Keys) (pool : ℕ → Phase) (i : ℕ) (safe : IsSafe s pool) where
  -- An update by a holder, whether or not it is committed.
  pub finish_kept :
      (id : String) (p : Phase)
      → IsQuiet p
      → holds (pool i) id ≡ true
      → IsSafe (update_operators f (λ o. ok (finish_revoke id o)) s).1 (set_at pool i p)
  finish_kept id p quiet held =
      let fn : OperatorSet → Result OperatorError OperatorSet = λ o. ok (finish_revoke id o) in
      let (same_keys, same_now) = update_operators_rest f fn s in
      elim (update_operators_cases f fn s) [
        | inl (same, _) ↦
            moved _ (ap (λ b. b.docs) same_keys) same same_now
              (Inv-frame safe i p (IsQuiet-Within (pool i) quiet))
        | inr (o, e, now) ↦
            moved _ (ap (λ b. b.docs) same_keys) (now ∙ cc) same_now
              (Inv-finish safe i p quiet id held)
      ]

  pub add_kept :
      (id : String) (p : Phase)
      → IsQuiet p
      → adds (pool i) id ≡ true
      → IsSafe (update_operators f (λ o. ok (add_operator id o)) s).1 (set_at pool i p)
  add_kept id p quiet adding =
      let fn : OperatorSet → Result OperatorError OperatorSet = λ o. ok (add_operator id o) in
      let (same_keys, same_now) = update_operators_rest f fn s in
      elim (update_operators_cases f fn s) [
        | inl (same, _) ↦
            moved _ (ap (λ b. b.docs) same_keys) same same_now
              (Inv-frame safe i p (IsQuiet-Within (pool i) quiet))
        | inr (o, e, now) ↦
            moved _ (ap (λ b. b.docs) same_keys) (now ∙ cc) same_now
              (Inv-add safe i p quiet id adding)
      ]

  pub claim_kept :
      (id : String) (k : ApiKey)
      → pool i ≡ claiming id k
      → let (r, s') = update_operators f (begin_revoke s.now id) s in
        IsSafe s' (set_at pool i (after_claim id k r))
  claim_kept id k at =
      let (same_keys, same_now) = update_operators_rest f (begin_revoke s.now id) s in
      elim (update_operators_cases f (begin_revoke s.now id) s) [
        | inl (same, failed) ↦
            moved _ (ap (λ b. b.docs) same_keys) same same_now
              (Inv-frame safe i _ (IsQuiet-Within (pool i) (after_claim_failed id k _ failed)))
        | inr (o, won, now) ↦
            moved _ (ap (λ b. b.docs) same_keys) now same_now
              (Inv-claim safe i id k _ at won (after_claim-Within id k _))
      ]
