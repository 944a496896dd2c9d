-- ===== src/Ca/Request/Whole.antt =====
-- A request that fails as a whole: no certificate of its own stays valid.
use mathlib.Core.Path.{subst}
use mnemoca.Store.Fault.{refused, Fault, fine, ghost}
use mnemoca.Ca.State.{Tenant, CertRecord, CaState, log_ca}
use mnemoca.Ca.Issue.{CaError, Plan, IssueRequest}
use mnemoca.Ca.Issuing.{
  Root, Cert, Pki, Call, IssueFailure, issue_all, issue_one, serials_of, persisted_serial, cause,
}
use mnemoca.Ca.Request.{CaEvent, ℕ, Result, String, Weather, issue, prepare, abandon, revoke_each}
use mnemoca.Ca.Request.Abandon.{cert_at, IsDead, revoke_each_at}
use mnemoca.Ca.Request.Leftover.{left_by, serials_of-append, issue_one_at}
use mnemoca.Prelude.{
  Option, false, some, true, ◌≢◌, ◌≡◌, arith, contains, contains-append, ◌⊎◌, inl, inr, refl, List,
  [], ◌∷◌, ◌++◌, Result-cases, ok, err, sym, ap, ◌∙◌,
}

abbrev given_up : Result (List String × CaError) (List Cert) → List String
given_up (ok _) = []
given_up (err gone) = gone.0

combined :
    {a b start : Option CertRecord} (out left : List String) (x : String)
    → (a ≡ b) ⊎ (contains left x ≡ true)
    → (b ≡ start) ⊎ (contains out x ≡ true)
    → (a ≡ start) ⊎ (contains (out ++ left) x ≡ true)
combined out left x (inl same) (inl so_far) = inl (same ∙ so_far)
combined out left x (inl same) (inr hit) = inr (ground (arith, hit, contains-append out left x))
combined out left x (inr hit) so_far = inr (ground (arith, hit, contains-append out left x))

module _ (pki : Pki) (call : String → Call) (t : Tenant) (root : Root) (plan : Plan) where
  stopped :
      (target : String) (targets : List String) (out : List Cert) (s : CaState) {e : IssueFailure}
      → (issue_one pki (call target) t root plan target s).0 ≡ err e
      → issue_all pki call t root plan (target ∷ targets) out s ≡ (
        err (serials_of out ++ persisted_serial e, cause e),
        (issue_one pki (call target) t root plan target s).1,
      )
  unfolding issue_all issue_one
  stopped target targets out s h = rw (issue_all, h) refl

  went_on :
      (target : String) (targets : List String) (out : List Cert) (s : CaState) {cert : Cert}
      → (issue_one pki (call target) t root plan target s).0 ≡ ok cert
      → issue_all pki call t root plan (target ∷ targets) out s
        ≡ issue_all pki call t root plan targets
            (out ++ cert ∷ [])
            (issue_one pki (call target) t root plan target s).1
  unfolding issue_all
  went_on target targets out s h = rw (issue_all, h) refl

  -- The records after the loop has failed are those at its start, but for the serials given up.
  issue_all_at :
      (start : CaState) (x : String)
      → ((target : String) → (call target).stored ≢ ghost)
      → (targets : List String) (out : List Cert) (s : CaState)
      → (cert_at s t.id x ≡ cert_at start t.id x) ⊎ (contains (serials_of out) x ≡ true)
      → (gone : List String) (e : CaError) (s' : CaState)
      → issue_all pki call t root plan targets out s ≡ (err (gone, e), s')
      → (cert_at s' t.id x ≡ cert_at start t.id x) ⊎ (contains gone x ≡ true)
  unfolding issue_all
  issue_all_at start x safe [] out s so_far gone e s' h = absurd (ground (arith, h))
  issue_all_at start x safe (target ∷ targets) out s so_far gone e s' h =
      let one = issue_one_at pki t root plan (call target) target s x (safe target) in
      elim (Result-cases (issue_one pki (call target) t root plan target s).0) [
        | inl (failure, failed) ↦
            let eq = sym (stopped target targets out s failed) ∙ h in
            let left =
              subst
                (λ r.
                  (cert_at (issue_one pki (call target) t root plan target s).1 t.id x
                    ≡ cert_at s t.id x)
                  ⊎ (contains (left_by r) x ≡ true))
                failed one in
            subst
              (λ u.
                (cert_at u.1 t.id x ≡ cert_at start t.id x) ⊎ (contains (given_up u.0) x ≡ true))
              eq (combined (serials_of out) (persisted_serial failure) x left so_far)
        | inr (cert, done) ↦
            let eq = sym (went_on target targets out s done) ∙ h in
            let left =
              subst
                (λ r.
                  (cert_at (issue_one pki (call target) t root plan target s).1 t.id x
                    ≡ cert_at s t.id x)
                  ⊎ (contains (left_by r) x ≡ true))
                done one in
            issue_all_at start x safe targets (out ++ cert ∷ [])
              (issue_one pki (call target) t root plan target s).1
              (subst
                (λ l.
                  (cert_at (issue_one pki (call target) t root plan target s).1 t.id x
                    ≡ cert_at start t.id x)
                  ⊎ (contains l x ≡ true))
                (sym (serials_of-append out (cert ∷ [])))
                (combined (serials_of out) (cert.template.serial ∷ []) x left so_far))
              gone e s' eq
      ]

logged_at :
    (g : Fault) (e : CaEvent) (s : CaState) (tenant x : String)
    → cert_at (log_ca g e s).1 tenant x ≡ cert_at s tenant x
unfolding log_ca
logged_at fine e s tenant x = refl
logged_at refused e s tenant x = refl
logged_at ghost e s tenant x = refl

abandon_at :
    (rev : String → Fault × Fault) (g : Fault) (now : ℕ) (tenant : String)
    → ((serial : String) → (rev serial).0 ≡ fine)
    → (serials : List String) (s : CaState) (x : String)
    → IsDead (abandon rev g now tenant serials s) tenant x
      ⊎ ((contains serials x ≡ false)
          × (cert_at (abandon rev g now tenant serials s) tenant x ≡ cert_at s tenant x))
unfolding abandon contains
abandon_at rev g now tenant good [] s x = inr (refl, refl)
abandon_at rev g now tenant good (serial ∷ serials) s x =
    let after = revoke_each rev now tenant (serial ∷ serials) s in
    let logged = logged_at g _ after tenant x in
    elim (revoke_each_at rev now tenant good (serial ∷ serials) s x) [
      | inl dead ↦ inl (λ rec h. dead rec (sym logged ∙ h))
      | inr (absent, kept) ↦ inr (absent, logged ∙ kept)
    ]

module _ (pki : Pki) (w : Weather) (req : IssueRequest) (s : CaState) {t : Tenant} {plan : Plan}
    {root : Root} (ready : prepare w req s ≡ ok (t, plan, root)) where
  abbrev looped : Result (List String × CaError) (List Cert) × CaState
  looped = issue_all pki w.call t root plan plan.targets [] s

  issue_done : {certs : List Cert} → looped.0 ≡ ok certs → issue pki w req s ≡ (ok certs, looped.1)
  unfolding issue issue_all
  issue_done h = rw (issue, ready, h) refl

  issue_stopped :
      {gone : List String × CaError}
      → looped.0 ≡ err gone
      → issue pki w req s ≡ (err gone.1, abandon w.rev w.report w.later t.id gone.0 looped.1)
  unfolding issue abandon
  issue_stopped h = rw (issue, ready, h) refl

-- If Issue fails, no certificate record is valid in the tenant's bucket that was not there, the same,
-- before: provided that no store of a record is reported as failed and yet stored, and that the
-- updates of the compensating revocations do not fail.
pub issue_leaves_none_valid :
    (pki : Pki) (w : Weather) (req : IssueRequest) (s : CaState) (t : Tenant) (plan : Plan)
    (root : Root)
    → prepare w req s ≡ ok (t, plan, root)
    → ((target : String) → (w.call target).stored ≢ ghost)
    → ((serial : String) → (w.rev serial).0 ≡ fine)
    → (e : CaError) → (issue pki w req s).0 ≡ err e
    → (x : String) (rec : CertRecord) → cert_at (issue pki w req s).1 t.id x ≡ some rec
    → rec.revoked ≡ false
    → cert_at s t.id x ≡ some rec
issue_leaves_none_valid pki w req s t plan root ready safe good e h x rec found valid =
    elim (Result-cases (looped pki w req s ready).0) [
      | inr (certs, done) ↦
          absurd (ground (arith, sym h ∙ ap (λ u. u.0) (issue_done pki w req s ready done)))
      | inl (gone, stop) ↦
          let after = (looped pki w req s ready).1 in
          let found' =
            subst (λ u. cert_at u.1 t.id x ≡ some rec) (issue_stopped pki w req s ready stop)
              found in
          let kept =
            issue_all_at pki w.call t root plan s x safe plan.targets [] s (inl refl) gone.0 gone.1
              after (ap (λ r. (r, after)) stop) in
          elim (abandon_at w.rev w.report w.later t.id good gone.0 after x) [
            | inl dead ↦ absurd (ground (arith, dead rec found', valid))
            | inr (absent, same) ↦ elim kept [
              | inl back ↦ sym back ∙ sym same ∙ found'
              | inr hit ↦ absurd (ground (arith, hit, absent))
            ]
          ]
    ]
