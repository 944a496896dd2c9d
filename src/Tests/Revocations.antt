-- ===== src/Tests/Revocations.antt =====
-- The theorems on revocations, applied to two operator keys and one caller.
use mnemoca.Api.Revocation.Safety.{operator_survives, claims_exclusive, IsSettled}
use mnemoca.Api.Revocation.System.{Reach, System, here, next, call, revoke}
use mnemoca.Api.Revocation.Handler.{run}
use mnemoca.Api.Revocation.{done}
use mnemoca.Api.Revocation.Expected.{expected, expected_set, six}
use mnemoca.Api.Revocation.Completes.{revocation_completes}
use Prim.Native.String.{[], ◌∷◌, String}
use mnemoca.Api.State.{log_event, update_operators, operator_meta_key, operator_set, Keys}
use mnemoca.Api.Revocation.{after_claim, loaded, idle, loading, step, Caller}
use mnemoca.Api.Revocation.Phases.{holds, creates}
use mnemoca.Api.Key.{ApiKey, role_operator, is_operator}
use mnemoca.Store.Bucket.{delete, update, get}
use mnemoca.Prelude.{
  delete_all, insert, remove, ℕ_discrete, inr, inl, str_eq, Bool-cases, ℕ, ◌++◌, refl, [], ◌∷◌,
  arith, none, false, List, set_at, contains, lookup, true, ◌≡◌,
}
use mnemoca.Store.Fault.{fine, Fault}
use mnemoca.Api.Revocation.Invariant.{OperatorAt}
use mnemoca.Api.Operators.{finish_revoke, begin_revoke}
use mnemoca.Api.Revocation.Answers.{revoked, revocation_answers}

abbrev key : String → ApiKey
key id = record {
  id = id;
  hash = "h";
  role = role_operator;
  tenant = "";
  created_at = 1;
  bootstrap = false;
  audited = true;
  recovery = false;
}

abbrev both : Keys
both = record {
  keys = record { docs = ("a", key "a") ∷ ("b", key "b") ∷ []; seq = 0 };
  operators = record {
    docs = (operator_meta_key, record { ids = "a" ∷ "b" ∷ []; revoking = [] }) ∷ [];
    seq = 0;
  };
  log = [];
  file = true;
  now = 100;
}

abbrev admin : Caller
admin = record { caller = "b"; bolt = true }

both-IsSettled : IsSettled both
unfolding operator_set lookup contains is_operator
both-IsSettled = record {
  some_left = omega arith;
  distinct = (refl, (refl, tt));
  stored = λ id h. elim (Bool-cases (str_eq "a" id)) [
    | inl e ↦ (key "a", ground (arith, e), refl)
    | inr e ↦ (key "b", ground (arith, e, h), refl)
  ];
}

abbrev resting : System
resting = record { shared = both; pool = λ i. idle }

abbrev started : System
started = record { shared = both; pool = set_at resting.pool 0 (loading "a") }

abbrev after : System → System
after s = record {
  shared = (step admin fine (s.pool 0) s.shared).1;
  pool = set_at s.pool 0 (step admin fine (s.pool 0) s.shared).0;
}

claim_reached : Reach resting (after (after started))
unfolding creates
claim_reached =
    next (next (next here (revoke 0 "a" (λ j. refl))) (call 0 admin fine)) (call 0 admin fine)

abbrev claimed : System
claimed = after (after started)

operator_survives_example :
    (id : String) × (contains (operator_set claimed.shared).ids id ≡ true)
    × OperatorAt claimed.shared.keys.docs id
operator_survives_example = operator_survives both-IsSettled (λ i. refl) claim_reached

claims_exclusive_example :
    (◌≡◌ {A = ℕ} 0 0) × (contains (operator_set claimed.shared).ids "a" ≡ false)
unfolding step holds get lookup update_operators update loaded after_claim begin_revoke ℕ_discrete
    is_operator
claims_exclusive_example =
    claims_exclusive both-IsSettled (λ i. refl) claim_reached 0 0 "a" refl refl

abbrev calls : List Fault
calls = fine ∷ fine ∷ fine ∷ fine ∷ fine ∷ fine ∷ fine ∷ fine ∷ []

revocation_completes_example :
    let (p, t) = run admin six (loading "a") both in
    (p ≡ done (expected "a" both)) × (operator_set t ≡ expected_set "a" both)
unfolding operator_set lookup contains
revocation_completes_example = revocation_completes admin "a" both (refl, (refl, tt))

abbrev gone : Keys
gone = record both {
  keys = record { docs = ("b", key "b") ∷ []; seq = 0 };
  operators = record {
    docs = (operator_meta_key, record { ids = "b" ∷ []; revoking = [] }) ∷ [];
    seq = 0;
  };
  log = revoked "a" admin ∷ [];
}

revocation_answers_example :
    (◌≡◌ {A = ℕ} 204 204
      → (lookup "a" gone.keys.docs ≡ none) × (gone.log ≡ [] ++ revoked "a" admin ∷ []))
    × (◌≡◌ {A = ℕ} 204 404 → gone ≡ both)
    × (◌≡◌ {A = ℕ} 204 409 → gone ≡ both)
unfolding run step get lookup is_operator update_operators begin_revoke log_event delete remove
    insert finish_revoke delete_all
revocation_answers_example = revocation_answers admin "a" both calls 204 gone refl
