-- ===== src/Api/Revocation/Answers.antt =====
-- What the answer to a revocation says about the keys and the log.
use mnemoca.Api.Revocation.{
  bootstrap_minted_id, is_operator, str_eq, ℕ, idle, storing, counting, recording, of_store, ok,
  rejected, err, UpdateError, after_claim, done, clearing, restoring, checking, reporting, cleaning,
  finishing, deleting, auditing, Result, delete, claiming, get, ApiKey, log_event, loading, Phase,
  step, Keys, Event, Fault, Caller,
}
use mnemoca.Api.State.{log_event}
use mnemoca.Api.Operators.{finish_revoke, begin_revoke, OperatorError, OperatorSet}
use mnemoca.Api.Revocation.Handler.{run}
use mathlib.Core.Path.{subst}
use mnemoca.Prelude.{eq_iff, ◌&&◌, ap, ◌∙◌, arith, refl, [], List, ◌∷◌, ◌++◌, none, ◌≡◌, lookup}
use mnemoca.Store.Bucket.{get, delete}
use mnemoca.Api.Revocation.Updates.{update_operators_rejected, update_operators_log}
use mnemoca.Api.State.{update_operators}
use mnemoca.Store.Fault.{refused, fine, ghost}
use mnemoca.Prelude.{Bool-cases, lookup-remove, eq_refl, inl, inr}
use Prim.Native.String.{[], String}

abbrev pub revoked : String → Caller → Event
revoked id c = record { action = "apikey.revoke"; object = id; actor = c.caller }

abbrev Gone : Caller → String → Keys → Keys → Type 0
Gone c id s t = (lookup id t.keys.docs ≡ none) × (t.log ≡ s.log ++ revoked id c ∷ [])

-- What holds at a phase of the revocation of `id` that began at `s` and stands at `t`.
abbrev Promise : Caller → String → Keys → Phase → Keys → Type 0
Promise c id s (loading j) t = (j ≡ id) × (t ≡ s)
Promise c id s (claiming j k) t = (j ≡ id) × (t ≡ s)
Promise c id s (auditing j k) t = (j ≡ id) × (t.log ≡ s.log)
Promise c id s (deleting j k) t = (j ≡ id) × (t.log ≡ s.log ++ revoked id c ∷ [])
Promise c id s (finishing j k) t = (j ≡ id) × Gone c id s t
Promise c id s (cleaning j) t = (j ≡ id) × Gone c id s t
Promise c id s (reporting j k) t = Unit
Promise c id s (checking j k) t = Unit
Promise c id s (restoring j) t = Unit
Promise c id s (clearing j) t = Unit
Promise c id s (done n) t = (n ≡ 204 → Gone c id s t) × (n ≡ 404 → t ≡ s) × (n ≡ 409 → t ≡ s)
Promise c id s _ t = ⊥

claim_answer :
    (c : Caller) (id : String) (s : Keys) (j : String) (k : ApiKey)
    (r : Result (UpdateError OperatorError) (Unit {0})) (t : Keys)
    → j ≡ id
    → t.log ≡ s.log
    → ((e : OperatorError) → r ≡ err (rejected e) → t ≡ s)
    → Promise c id s (after_claim j k r) t
unfolding after_claim
claim_answer c id s j k (ok _) t here same back = (here, same)
claim_answer c id s j k (err (rejected e)) t here same back =
    (λ n. absurd (omega (arith, n)), λ n. absurd (omega (arith, n)), λ _. back e refl)
claim_answer c id s j k (err (of_store e)) t here same back =
    (λ n. absurd (omega (arith, n)), λ n. absurd (omega (arith, n)), λ n. absurd (omega (arith, n)))

module _ (c : Caller) (id : String) (s : Keys) where
  claim-Promise :
      (f : Fault) (j : String) (k : ApiKey) (t : Keys)
      → Promise c id s (claiming j k) t
      → let (p, t') = step c f (claiming j k) t in Promise c id s p t'
  unfolding step
  claim-Promise f j k t (here, same) =
      let fn = begin_revoke t.now j in
      claim_answer c id s j k _ _ here (update_operators_log f fn t ∙ ap (λ u. u.log) same)
        (λ e h. update_operators_rejected f fn t h ∙ same)

  finish_promise :
      (f : Fault) (j : String) (k : ApiKey) (t : Keys)
      → (j ≡ id) × Gone c id s t
      → Gone c id s (step c f (finishing j k) t).1
  unfolding step update_operators
  finish_promise f j k t (here, (gone, wrote)) =
      let fn : OperatorSet → Result OperatorError OperatorSet = λ o. ok (finish_revoke j o) in
      elim (Bool-cases (is_operator k.role)) [
        | inl op ↦ rw op (gone, update_operators_log f fn t ∙ wrote)
        | inr op ↦ rw op (gone, wrote)
      ]

  clean_promise :
      (f : Fault) (j : String) (t : Keys)
      → (j ≡ id) × Gone c id s t
      → Gone c id s (step c f (cleaning j) t).1
  unfolding step
  clean_promise f j t (here, (gone, wrote)) =
      elim (Bool-cases (str_eq j bootstrap_minted_id && c.bolt)) [
        | inl hit ↦ rw hit (gone, wrote)
        | inr miss ↦ rw miss (gone, wrote)
      ]

  step-Promise :
      (f : Fault) (p : Phase) (t : Keys)
      → Promise c id s p t
      → let (p', t') = step c f p t in Promise c id s p' t'
  unfolding step log_event get delete
  step-Promise f (loading j) t h = ground arith
  step-Promise f (claiming j k) t h = claim-Promise f j k t h
  step-Promise fine (auditing j k) t h = ground arith
  step-Promise refused (auditing j k) t h = tt
  step-Promise ghost (auditing j k) t h = tt
  step-Promise fine (deleting j k) t h =
      (h.0, (ground (arith, h.0, lookup-remove j id t.keys.docs, eq_refl id, eq_iff j id), h.1))
  step-Promise refused (deleting j k) t h = tt
  step-Promise ghost (deleting j k) t h = tt
  step-Promise f (reporting j k) t h = tt
  step-Promise f (checking j k) t h = ground arith
  step-Promise f (finishing j k) t h = (h.0, finish_promise f j k t h)
  step-Promise f (cleaning j) t h =
      (λ _. clean_promise f j t h, λ e. absurd (omega (arith, e)), λ e. absurd (omega (arith, e)))
  step-Promise f (restoring j) t h = ground arith
  step-Promise f (clearing j) t h = ground arith
  step-Promise f (done n) t h = h
  step-Promise f idle t h = elim h [ ]
  step-Promise f (storing k) t h = elim h [ ]
  step-Promise f (counting k) t h = elim h [ ]
  step-Promise f (recording k) t h = elim h [ ]

  run-Promise :
      (fs : List Fault) (p : Phase) (t : Keys)
      → Promise c id s p t
      → let (p', t') = run c fs p t in Promise c id s p' t'
  unfolding run
  run-Promise [] p t h = h
  run-Promise (f ∷ fs) p t h =
      run-Promise fs (step c f p t).0 (step c f p t).1 (step-Promise f p t h)

  -- The answer 204 means that the key is gone and that its revocation is the last record of the
  -- log; the answers 404 and 409 mean that nothing was changed.
  pub revocation_answers :
      (fs : List Fault) (n : ℕ) (t : Keys)
      → run c fs (loading id) s ≡ (done n, t)
      → (n ≡ 204 → (lookup id t.keys.docs ≡ none) × (t.log ≡ s.log ++ revoked id c ∷ []))
        × (n ≡ 404 → t ≡ s)
        × (n ≡ 409 → t ≡ s)
  revocation_answers fs n t h =
      subst (λ u. Promise c id s u.0 u.1) h (run-Promise fs (loading id) s (refl, refl))
