-- ===== src/Api/Revocation/Completes.antt =====
-- A revocation whose calls all go through, beside what it should answer.
use mnemoca.Prelude.{
  ℕ, String, true, false, ◌&&◌, some, [], ◌∷◌, ok, err, ◌≡◌, refl, inl, inr, ap, sym, ◌∙◌, eq_refl,
  str_eq, delete_all, delete_all_of_not-contains, contains-delete_all, remove-insert, lookup,
  Option-cases, Bool-cases, if◌then◌else◌,
}
use mathlib.Core.Path.{subst}
use mnemoca.Store.Fault.{fine}
use mnemoca.Store.Bucket.{get, delete}
use mnemoca.Api.Key.{ApiKey, is_operator}
use mnemoca.Api.Operators.{OperatorSet, OperatorError, begin_revoke, finish_revoke}
use mnemoca.Api.Operators.Laws.{Distinct}
use mnemoca.Api.State.{Keys, operator_set, update_operators, log_event}
use mnemoca.Api.Revocation.{
  Phase, Caller, loading, claiming, auditing, deleting, finishing, cleaning, bootstrap_minted_id,
  done, loaded, after_claim, step,
}
use mnemoca.Api.Revocation.Handler.{run}
use mnemoca.Api.Revocation.Expected.{
  is_refused, expected_of, expected, expected_set_of, expected_set, without, taken_off, six,
  update_operators_fine, update_operators_refused, guard_of,
}

module _ (c : Caller) (id : String) where
  cleaned : (u : Keys) → operator_set (step c fine (cleaning id) u).1 ≡ operator_set u
  unfolding step operator_set
  cleaned u = elim (Bool-cases (str_eq id bootstrap_minted_id && c.bolt)) [
    | inl e ↦ rw e refl
    | inr e ↦ rw e refl
  ]

  finished :
      (k : ApiKey) (u : Keys)
      → operator_set (step c fine (finishing id k) u).1
        ≡ (if is_operator k.role then finish_revoke id (operator_set u) else operator_set u)
  unfolding step
  finished k u = elim (Bool-cases (is_operator k.role)) [
    | inl e ↦ rw e ((update_operators_fine (λ o. ok (finish_revoke id o)) u _ refl).1)
    | inr e ↦ rw e refl
  ]

  -- The part of a revocation after the claim.
  cleared :
      (k : ApiKey) (t : Keys)
      → let (p, u) = run c (fine ∷ fine ∷ fine ∷ fine ∷ []) (auditing id k) t in
        (p ≡ done 204)
        × (operator_set u
            ≡ (if is_operator k.role then finish_revoke id (operator_set t) else operator_set t))
  unfolding run step log_event delete operator_set
  cleared k t =
      let t' = (step c fine (auditing id k) t).1 in
      let t'' = (step c fine (deleting id k) t').1 in
      (refl, cleaned (step c fine (finishing id k) t'').1 ∙ finished k t'')

  -- What a run from a phase should come to, for the key.
  abbrev Comes : ApiKey → Keys → Phase × Keys → Type 0
  Comes k s (p, u) =
      (p ≡ done (expected_of id (some k) s)) × (operator_set u ≡ expected_set_of id (some k) s)

  -- A claim that is taken and then given up leaves no trace.
  finish-taken_off :
      (now : ℕ) (o : OperatorSet) → finish_revoke id (taken_off now id o) ≡ without id o
  unfolding finish_revoke
  finish-taken_off now o =
      let twice : delete_all (delete_all o.ids id) id ≡ delete_all o.ids id =
        delete_all_of_not-contains (delete_all o.ids id) id
          (rw (contains-delete_all, eq_refl) refl) in
      rw (twice, remove-insert) refl

  from_plain :
      (k : ApiKey) (s : Keys)
      → str_eq k.role "operator" ≡ false
      → Comes k s (run c (fine ∷ fine ∷ fine ∷ fine ∷ fine ∷ []) (auditing id k) s)
  unfolding run step is_operator log_event delete
  from_plain k s plain =
      let (_, kept) = cleared k s in
      let off : (if is_operator k.role then finish_revoke id (operator_set s) else operator_set s)
          ≡ operator_set s =
        rw plain refl in
      let left : operator_set s ≡ expected_set_of id (some k) s = rw plain refl in
      (rw plain refl, kept ∙ off ∙ left)

  from_refused :
      (k : ApiKey) (s : Keys) (e : OperatorError)
      → is_refused id k s ≡ true
      → begin_revoke s.now id (operator_set s) ≡ err e
      → Comes k s (run c (fine ∷ fine ∷ fine ∷ fine ∷ fine ∷ []) (claiming id k) s)
  unfolding run step after_claim
  from_refused k s e refused bad =
      let (answer, kept) = update_operators_refused (begin_revoke s.now id) s e bad in
      let t = (update_operators fine (begin_revoke s.now id) s).1 in
      let next : after_claim id k (update_operators fine (begin_revoke s.now id) s).0 ≡ done 409 =
        ap (after_claim id k) answer in
      subst (λ p. Comes k s (run c (fine ∷ fine ∷ fine ∷ fine ∷ []) p t)) (sym next)
        (rw refused refl, kept ∙ rw refused refl)

  from_free :
      (k : ApiKey) (s : Keys)
      → str_eq k.role "operator" ≡ true
      → is_refused id k s ≡ false
      → begin_revoke s.now id (operator_set s) ≡ ok (taken_off s.now id (operator_set s))
      → Comes k s (run c (fine ∷ fine ∷ fine ∷ fine ∷ fine ∷ []) (claiming id k) s)
  unfolding run step after_claim is_operator finish_revoke
  from_free k s op free good =
      let o = taken_off s.now id (operator_set s) in
      let (answer, taken) = update_operators_fine (begin_revoke s.now id) s o good in
      let t = (update_operators fine (begin_revoke s.now id) s).1 in
      let next : after_claim id k (update_operators fine (begin_revoke s.now id) s).0
          ≡ auditing id k =
        ap (after_claim id k) answer in
      let (ends, off) = cleared k t in
      let gone : operator_set (run c (fine ∷ fine ∷ fine ∷ fine ∷ []) (auditing id k) t).1
          ≡ finish_revoke id o =
        off ∙ rw op (ap (finish_revoke id) taken) in
      subst (λ p. Comes k s (run c (fine ∷ fine ∷ fine ∷ fine ∷ []) p t)) (sym next)
        (ends ∙ rw free refl, gone ∙ finish-taken_off s.now (operator_set s) ∙ rw (free, op) refl)

  from_key :
      (k : ApiKey) (s : Keys)
      → Distinct (operator_set s).ids
      → Comes k s (run c (fine ∷ fine ∷ fine ∷ fine ∷ fine ∷ []) (loaded id (ok k)) s)
  unfolding loaded is_operator
  from_key k s d =
      let five = fine ∷ fine ∷ fine ∷ fine ∷ fine ∷ [] in
      elim (Bool-cases (str_eq k.role "operator")) [
        | inr plain ↦
            let next : loaded id (ok k) ≡ auditing id k = rw plain refl in
            subst (λ p. Comes k s (run c five p s)) (sym next) (from_plain k s plain)
        | inl op ↦
            let next : loaded id (ok k) ≡ claiming id k = rw op refl in
            subst (λ p. Comes k s (run c five p s)) (sym next)
              (elim (guard_of s.now id (operator_set s) d) [
                | inl (refused, e, bad) ↦ from_refused k s e (rw op refused) bad
                | inr (free, good) ↦ from_free k s op (rw op free) good
              ])
      ]

  -- A revocation that runs alone on operators without repeated ids, and whose six calls all go through,
  -- has its answer after them: 404 for a key that is not stored, 409 for an operator that another
  -- revocation has claimed within five minutes or without which no operator is left, and else 204; when
  -- it answers 204 to the revocation of an operator it takes that id off the operators, and any claim on
  -- it off the claims, and otherwise it leaves both as they were.
  pub revocation_completes :
      (s : Keys)
      → Distinct (operator_set s).ids
      → let (p, t) = run c six (loading id) s in
        (p ≡ done (expected id s)) × (operator_set t ≡ expected_set id s)
  unfolding run step loaded get expected expected_set
  revocation_completes s d = elim (Option-cases (lookup id s.keys.docs)) [
    | inl absent ↦ rw absent (refl, refl)
    | inr (k, found) ↦ rw found (from_key k s d)
  ]
