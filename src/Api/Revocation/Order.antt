-- ===== src/Api/Revocation/Order.antt =====
-- The phases that follow one another within a handler.
use mnemoca.Prelude.{ℕ, String, ◌≡◌, true, arith, Result, ok, err}
use mnemoca.Store.Fault.{Fault, fine, refused, ghost}
use mnemoca.Api.Key.{ApiKey, is_operator}
use mnemoca.Api.State.{Keys, operator_set, log_event}
use mnemoca.Api.Revocation.{
  Event, branch, Phase, auditing, deleting, reporting, checking, finishing, clearing,
}
use mnemoca.Api.Revocation.Phases.{holds, adds, creates, stores, mentions, targets, Within, IsQuiet}
use mnemoca.Api.Revocation.Updates.{IsSafe}

pub branch-Within :
    {p q w : Phase} {E : Type 0} (r : Result E (Unit {0}))
    → Within p w
    → Within q w
    → Within (branch p q r) w
branch-Within (ok _) good bad = good
branch-Within (err _) good bad = bad

pub branch-IsQuiet :
    {p q : Phase} {E : Type 0} (r : Result E (Unit {0}))
    → IsQuiet p
    → IsQuiet q
    → IsQuiet (branch p q r)
branch-IsQuiet (ok _) good bad = good
branch-IsQuiet (err _) good bad = bad

pub log_kept :
    (f : Fault) (e : Event) (s : Keys) {pool : ℕ → Phase}
    → IsSafe s pool
    → IsSafe (log_event f e s).1 pool
unfolding log_event operator_set
log_kept fine e s h = h
log_kept refused e s h = h
log_kept ghost e s h = h

-- The phases of one revocation, once the claim is held, hold and name the same.
pub auditing_deleting : (id : String) (k : ApiKey) → Within (deleting id k) (auditing id k)
unfolding holds adds creates stores mentions targets
auditing_deleting id k = record {
  less_held = λ l h. h;
  less_added = λ l h. h;
  less_created = λ l h. h;
  less_stored = λ l h. h;
  less_named = λ l h. h;
  less_seen = λ l op h. h;
}

pub auditing_checking : (id : String) (k : ApiKey) → Within (checking id k) (auditing id k)
unfolding holds adds creates stores mentions targets
auditing_checking id k = record {
  less_held = λ l h. h;
  less_added = λ l h. h;
  less_created = λ l h. h;
  less_stored = λ l h. h;
  less_named = λ l h. h;
  less_seen = λ l op h. h;
}

pub deleting_finishing : (id : String) (k : ApiKey) → Within (finishing id k) (deleting id k)
unfolding holds adds creates stores mentions targets
deleting_finishing id k = record {
  less_held = λ l h. h;
  less_added = λ l h. h;
  less_created = λ l h. h;
  less_stored = λ l h. h;
  less_named = λ l h. h;
  less_seen = λ l op h. cc;
}

pub deleting_reporting : (id : String) (k : ApiKey) → Within (reporting id k) (deleting id k)
unfolding holds adds creates stores mentions targets
deleting_reporting id k = record {
  less_held = λ l h. h;
  less_added = λ l h. h;
  less_created = λ l h. h;
  less_stored = λ l h. h;
  less_named = λ l h. h;
  less_seen = λ l op h. h;
}

pub reporting_checking : (id : String) (k : ApiKey) → Within (checking id k) (reporting id k)
unfolding holds adds creates stores mentions targets
reporting_checking id k = record {
  less_held = λ l h. h;
  less_added = λ l h. h;
  less_created = λ l h. h;
  less_stored = λ l h. h;
  less_named = λ l h. h;
  less_seen = λ l op h. h;
}

pub checking_clearing :
    (id : String) (k : ApiKey) → is_operator k.role ≡ true → Within (clearing id) (checking id k)
unfolding holds adds creates stores mentions targets
checking_clearing id k op = record {
  less_held = λ l h. ground arith;
  less_added = λ l h. h;
  less_created = λ l h. h;
  less_stored = λ l h. h;
  less_named = λ l h. h;
  less_seen = λ l b h. cc;
}
