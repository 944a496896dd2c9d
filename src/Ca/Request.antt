-- ===== src/Ca/Request.antt =====
-- internal/ca/issue.go: Issue, with the compensation of a request that fails.
pub mod Abandon
pub mod Leftover
pub mod Whole
use mnemoca.Prelude.{pos, err, ok, ℕ, List, String, Result, ◌>>=◌, ◌>>◌, ◌∷◌, []}
use mnemoca.Store.Fault.{Fault, StoreError, not_found}
use mnemoca.Store.Bucket.{get}
use mnemoca.Ca.State.{Tenant, CaEvent, CaState, log_ca}
use mnemoca.Ca.Issue.{IssueRequest, CaError, Plan, plan_issue, revoke, store_failed, unknown_tenant}
use mnemoca.Ca.Issuing.{Root, Cert, Pki, Call, issue_all}

-- The revocations of abandonIssued: `rev` gives the outcomes of the two calls of each.
unfoldable pub revoke_each : (String → Fault × Fault) → ℕ → String → List String → CaState → CaState
revoke_each rev now tenant [] s = s
revoke_each rev now tenant (serial ∷ serials) s =
    let (f, g) = rev serial in
    revoke_each rev now tenant serials (revoke f g now tenant serial (pos 5) s).1

unfoldable pub abandon :
    (String → Fault × Fault) → Fault → ℕ → String → List String → CaState → CaState
unfolding revoke_each
abandon rev g now tenant [] s = s
abandon rev g now tenant (serial ∷ serials) s =
    let event : CaEvent = record {
      tenant = tenant;
      action = "cert.issue.abandoned";
      objects = serial ∷ serials;
    } in
    (log_ca g event (revoke_each rev now tenant (serial ∷ serials) s)).1

-- What the calls of one request meet, and when it gives up what it has issued.
pub record Weather : Type 0 where
  pub tenant : Fault
  pub root : Result CaError Root
  pub call : String → Call
  pub rev : String → Fault × Fault
  pub report : Fault
  pub later : ℕ

abbrev tenant_error : Result StoreError Tenant → Result CaError Tenant
tenant_error (ok t) = ok t
tenant_error (err not_found) = err unknown_tenant
tenant_error (err _) = err store_failed

-- Issue up to its loop
unfoldable pub prepare : Weather → IssueRequest → CaState → Result CaError (Tenant × Plan × Root)
prepare w req s = do
  t ← tenant_error (get w.tenant req.tenant s.tenants)
  plan ← plan_issue t req
  root ← w.root
  ok (t, plan, root)

unfoldable pub issue : Pki → Weather → IssueRequest → CaState → Result CaError (List Cert) × CaState
issue pki w req s = elim (prepare w req s) [
  | err e ↦ (err e, s)
  | ok ready ↦
      let (t, plan, root) = ready in
      let (r, s') = issue_all pki w.call t root plan plan.targets [] s in
      elim r [
        | ok certs ↦ (ok certs, s')
        | err gone ↦ (err gone.1, abandon w.rev w.report w.later t.id gone.0 s')
      ]
]
