-- ===== src/Api/Revocation/Calls.antt =====
-- Every call of a handler keeps the invariant.
use mnemoca.Prelude.{
  ℕ, String, ◌≡◌, refl, inl, inr, Bool, true, false, some, arith, lookup, set_at, Result, ok, err,
  eq_refl, if◌then◌else◌, Bool-cases,
}
use mnemoca.Store.Fault.{Fault, fine, refused, ghost, StoreError, not_found}
use mnemoca.Store.Bucket.{get, put, delete}
use mnemoca.Api.Key.{ApiKey, is_operator}
use mnemoca.Store.Bucket.Laws.{get_found}
use mnemoca.Api.State.{Keys, operator_set}
use mnemoca.Api.Revocation.{
  branch, checked, Phase, Caller, idle, loading, claiming, auditing, deleting, reporting, checking,
  finishing, restoring, clearing, cleaning, storing, counting, recording, done, step,
}
use mnemoca.Api.Revocation.Phases.{holds, adds, IsQuiet, IsQuiet-Within}
use mnemoca.Api.Revocation.Invariant.{Inv-frame}
use mnemoca.Api.Revocation.Updates.{
  idle-IsQuiet, cleaning-IsQuiet, recording-IsQuiet, IsSafe, done-IsQuiet,
}
use mnemoca.Api.Revocation.Write.{Inv-delete, Inv-store}
use mnemoca.Api.Revocation.Changes.{add_kept, claim_kept, Within-refl, finish_kept}
use mnemoca.Api.Revocation.Order.{
  branch-IsQuiet, reporting_checking, auditing_checking, auditing_deleting, branch-Within, log_kept,
  deleting_reporting, checking_clearing, deleting_finishing,
}
use mnemoca.Api.Revocation.Load.{load-Inv, Inv-survived}

module _ (s : Keys) (pool : ℕ → Phase) (i : ℕ) (safe : IsSafe s pool) where
  delete_kept :
      (f : Fault) (id : String) (k : ApiKey)
      → pool i ≡ deleting id k
      → let (r, b) = delete f id s.keys in
        IsSafe (record s { keys = b }) (set_at pool i (branch (finishing id k) (reporting id k) r))
  unfolding delete operator_set
  delete_kept fine id k at = Inv-delete safe i _ id k at (rw at (deleting_finishing id k))
  delete_kept refused id k at = Inv-frame safe i _ (rw at (deleting_reporting id k))
  delete_kept ghost id k at = Inv-delete safe i _ id k at (rw at (deleting_reporting id k))

  store_kept :
      (f : Fault) (k : ApiKey)
      → pool i ≡ storing k
      → let (r, b) = put f k.id k s.keys in
        IsSafe
          (record s { keys = b })
          (set_at pool i
            (branch (if is_operator k.role then counting k else recording k) (done 500) r))
  unfolding put operator_set adds
  store_kept fine k at = elim (Bool-cases (is_operator k.role)) [
    | inl op ↦ rw op (Inv-store safe i _ k at (Within-refl _) (λ l h. op))
    | inr tenant ↦
        rw tenant (Inv-store safe i _ k at (IsQuiet-Within _ (recording-IsQuiet k)) (λ l h. cc))
  ]
  store_kept refused k at = Inv-frame safe i _ (IsQuiet-Within _ (done-IsQuiet 500))
  store_kept ghost k at = Inv-store safe i _ k at (IsQuiet-Within _ (done-IsQuiet 500)) (λ l h. cc)

  check_kept :
      (id : String) (k : ApiKey)
      → pool i ≡ checking id k
      → is_operator k.role ≡ true
      → (r : Result StoreError ApiKey)
      → ((k' : ApiKey) → r ≡ ok k' → lookup id s.keys.docs ≡ some k')
      → IsSafe s (set_at pool i (checked id r))
  unfolding checked
  check_kept id k at op (ok k') found = Inv-survived safe i id k k' at op (found k' refl)
  check_kept id k at op (err not_found) found =
      Inv-frame safe i _ (rw at (checking_clearing id k op))
  check_kept id k at op (err e) found = Inv-frame safe i _ (IsQuiet-Within _ (done-IsQuiet 500))

  -- The phases that hold a claim, by the handler's place.
  finishing_holds :
      (id : String) (k : ApiKey)
      → pool i ≡ finishing id k
      → is_operator k.role ≡ true
      → holds (pool i) id ≡ true
  unfolding holds
  finishing_holds id k at op = rw at (ground (arith, eq_refl id))

  clearing_holds : (id : String) → pool i ≡ clearing id → holds (pool i) id ≡ true
  unfolding holds
  clearing_holds id at = rw at (eq_refl id)

  restoring_adds : (id : String) → pool i ≡ restoring id → adds (pool i) id ≡ true
  unfolding adds
  restoring_adds id at = rw at (eq_refl id)

  counting_adds : (k : ApiKey) → pool i ≡ counting k → adds (pool i) k.id ≡ true
  unfolding adds
  counting_adds k at = rw at (eq_refl k.id)

  cleaned :
      (b : Bool) (p : Phase)
      → IsQuiet p
      → IsSafe (if b then record s { file = false } else s) (set_at pool i p)
  unfolding operator_set
  cleaned true p quiet = Inv-frame safe i p (IsQuiet-Within (pool i) quiet)
  cleaned false p quiet = Inv-frame safe i p (IsQuiet-Within (pool i) quiet)

module _ (c : Caller) (f : Fault) (s : Keys) (pool : ℕ → Phase) (i : ℕ) (safe : IsSafe s pool) where
  finishing_kept :
      (id : String) (k : ApiKey)
      → pool i ≡ finishing id k
      → IsSafe (step c f (finishing id k) s).1 (set_at pool i (cleaning id))
  unfolding step
  finishing_kept id k at = elim (Bool-cases (is_operator k.role)) [
    | inl op ↦ rw op (
        finish_kept f s pool i safe id (cleaning id) (cleaning-IsQuiet id)
          (finishing_holds s pool i safe id k at op))
    | inr tenant ↦ rw tenant (Inv-frame safe i _ (IsQuiet-Within (pool i) (cleaning-IsQuiet id)))
  ]

  checking_kept :
      (id : String) (k : ApiKey)
      → pool i ≡ checking id k
      → IsSafe s (set_at pool i (step c f (checking id k) s).0)
  unfolding step
  checking_kept id k at = elim (Bool-cases (is_operator k.role)) [
    | inl op ↦
        rw op
          (check_kept s pool i safe id k at op (get f id s.keys) (λ k' e. get_found f id s.keys e))
    | inr tenant ↦ rw tenant (Inv-frame safe i _ (IsQuiet-Within (pool i) (done-IsQuiet 500)))
  ]

  -- One call of the handler, at each phase.
  pub call_kept :
      (p : Phase) → pool i ≡ p → let (p', s') = step c f p s in IsSafe s' (set_at pool i p')
  unfolding step
  call_kept (loading id) at =
      load-Inv safe i id at (get f id s.keys) (λ k e. get_found f id s.keys e)
  call_kept (claiming id k) at = claim_kept f s pool i safe id k at
  call_kept (auditing id k) at = log_kept f _ s (
      Inv-frame safe i _
        (rw at (branch-Within _ (auditing_deleting id k) (auditing_checking id k))))
  call_kept (deleting id k) at = delete_kept s pool i safe f id k at
  call_kept (reporting id k) at =
      log_kept f _ s (Inv-frame safe i _ (rw at (reporting_checking id k)))
  call_kept (checking id k) at = checking_kept id k at
  call_kept (restoring id) at =
      add_kept f s pool i safe id (done 500) (done-IsQuiet 500) (restoring_adds s pool i safe id at)
  call_kept (clearing id) at =
      finish_kept f s pool i safe id (done 500) (done-IsQuiet 500)
        (clearing_holds s pool i safe id at)
  call_kept (finishing id k) at = finishing_kept id k at
  call_kept (cleaning id) at = cleaned s pool i safe _ (done 204) (done-IsQuiet 204)
  call_kept (storing k) at = store_kept s pool i safe f k at
  call_kept (counting k) at =
      add_kept f s pool i safe k.id _ (branch-IsQuiet _ (recording-IsQuiet k) (done-IsQuiet 500))
        (counting_adds s pool i safe k at)
  call_kept (recording k) at = log_kept f _ s (
      Inv-frame safe i _
        (IsQuiet-Within (pool i) (branch-IsQuiet _ (done-IsQuiet 201) (done-IsQuiet 500))))
  call_kept idle at = Inv-frame safe i _ (IsQuiet-Within (pool i) idle-IsQuiet)
  call_kept (done n) at = Inv-frame safe i _ (IsQuiet-Within (pool i) (done-IsQuiet n))
