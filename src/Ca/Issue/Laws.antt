-- ===== src/Ca/Issue/Laws.antt =====
-- What a planned issuance and a revocation guarantee.
use mnemoca.Ca.Profile.{Profile}
use mnemoca.Ca.Issue.{
  store_failed, none, unknown_certificate, false, some, err, true, ok, String, ℕ, revoke,
  mark_revoked, already_revoked,
}
use mnemoca.Ca.State.{CertRecord, CaState}
use mnemoca.Store.Bucket.{update}
use mnemoca.Store.Fault.{refused, ghost, fine, Fault}
use mnemoca.Ca.Request.Abandon.{revoke_docs}
use mnemoca.Prelude.{
  eq_refl, lookup-insert, insert, ap, ◌∙◌, sym, Option-cases, ◌≡◌, arith, ℤ, Bool-cases, inl, inr,
  refl, lookup,
}

refused_again :
    (f g : Fault) (now : ℕ) (tenant serial : String) (reason : ℤ) (s : CaState) {rec : CertRecord}
    → lookup serial (s.certs tenant).docs ≡ some rec
    → rec.revoked ≡ true
    → (revoke f g now tenant serial reason s).0 ≡ err already_revoked
unfolding revoke update
refused_again f g now tenant serial reason s e dead = rw (revoke, update, e, dead) refl

refused_unknown :
    (f g : Fault) (now : ℕ) (tenant serial : String) (reason : ℤ) (s : CaState)
    → lookup serial (s.certs tenant).docs ≡ none
    → (revoke f g now tenant serial reason s).0 ≡ err unknown_certificate
unfolding revoke update
refused_unknown f g now tenant serial reason s e = rw (revoke, update, e) refl

-- A revocation that has succeeded found a valid record and put a revoked one in its place.
revoke_wrote :
    (f g : Fault) (now : ℕ) (tenant serial : String) (reason : ℤ) (s : CaState) {rec : CertRecord}
    → lookup serial (s.certs tenant).docs ≡ some rec
    → rec.revoked ≡ false
    → (revoke f g now tenant serial reason s).0 ≡ ok tt
    → (update f false serial (mark_revoked now reason) (s.certs tenant)).1.docs
      ≡ insert serial
          (record rec { revoked = true; revoked_at = now; reason_code = reason })
          (s.certs tenant).docs
unfolding update insert revoke
revoke_wrote fine g now tenant serial reason s e valid h = rw (update, e, valid) refl
revoke_wrote ghost g now tenant serial reason s e valid h = rw (update, e, valid) refl
revoke_wrote refused g now tenant serial reason s e valid h =
    let failed : (revoke refused g now tenant serial reason s).0 ≡ err store_failed =
      rw (revoke, update, e, valid) refl in
    absurd (ground (arith, sym h ∙ failed))

-- A certificate is revoked once: after a revocation that has succeeded every other one of the
-- same certificate is refused as already revoked, whatever its calls would have met.
pub revoke_once :
    (f f' g g' : Fault) (now now' : ℕ) (tenant serial : String) (reason reason' : ℤ) (s : CaState)
    → (revoke f g now tenant serial reason s).0 ≡ ok tt
    → (revoke f' g' now' tenant serial reason' (revoke f g now tenant serial reason s).1).0
      ≡ err already_revoked
revoke_once f f' g g' now now' tenant serial reason reason' s h =
    elim (Option-cases (lookup serial (s.certs tenant).docs)) [
      | inl e ↦ absurd (ground (arith, sym h ∙ refused_unknown f g now tenant serial reason s e))
      | inr (rec, e) ↦ elim (Bool-cases rec.revoked) [
        | inl dead ↦
            absurd (ground (arith, sym h ∙ refused_again f g now tenant serial reason s e dead))
        | inr valid ↦
            let dead : CertRecord = record rec {
              revoked = true;
              revoked_at = now;
              reason_code = reason;
            } in
            let found : lookup serial (insert serial dead (s.certs tenant).docs) ≡ some dead =
              rw (lookup-insert, eq_refl) refl in
            refused_again f' g' now' tenant serial reason' (revoke f g now tenant serial reason s).1
              (ap (λ b. lookup serial b.docs) (revoke_docs f g now tenant serial reason s)
                ∙ ap (lookup serial) (revoke_wrote f g now tenant serial reason s e valid h)
                ∙ found)
              refl
      ]
    ]
