-- ===== src/Api/Revocation/System.antt =====
-- Any number of handlers over the shared keys: which steps the replicas can make.
use mnemoca.Prelude.{ℕ, ◌+◌, String, ◌≡◌, true, false, none, lookup, set_at}
use mnemoca.Store.Fault.{Fault}
use mnemoca.Api.Key.{ApiKey}
use mnemoca.Api.State.{Keys, operator_set}
use mnemoca.Api.Revocation.{Phase, Caller, idle, loading, storing, step}
use mnemoca.Api.Revocation.Phases.{holds, creates, mentions}
use mnemoca.Api.Revocation.Invariant.{ClaimedAt}

pub record System : Type 0 where
  pub shared : Keys
  pub pool : ℕ → Phase

-- `call` is one call of a handler, with any outcome; `crash` ends a handler at any point;
-- `revoke` starts a revocation of an id whose creation is not under way (the id is random, and is
-- given out when it is done); `create` starts the creation of a key under a fresh random id;
-- `tick` lets time pass, as long as no claim of a live handler expires.
pub data Step : System → System → Type 0 where
  call :
      {s : System} (i : ℕ) (c : Caller) (f : Fault)
      → Step s (record {
        shared = (step c f (s.pool i) s.shared).1;
        pool = set_at s.pool i (step c f (s.pool i) s.shared).0;
      })
  crash : {s : System} (i : ℕ) → Step s (record s { pool = set_at s.pool i idle })
  revoke :
      {s : System} (i : ℕ) (id : String)
      → ((j : ℕ) → creates (s.pool j) id ≡ false)
      → Step s (record s { pool = set_at s.pool i (loading id) })
  create :
      {s : System} (i : ℕ) (k : ApiKey)
      → lookup k.id s.shared.keys.docs ≡ none
      → ((j : ℕ) → mentions (s.pool j) k.id ≡ false)
      → Step s (record s { pool = set_at s.pool i (storing k) })
  tick :
      {s : System} (d : ℕ)
      → ((j : ℕ) (id : String)
          → holds (s.pool j) id ≡ true
          → ClaimedAt (operator_set s.shared) (s.shared.now + d) id)
      → Step s (record s { shared = record s.shared { now = s.shared.now + d } })

pub data Reach (s : System) : System → Type 0 where
  here : Reach s s
  next : {t u : System} → Reach s t → Step t u → Reach s u
