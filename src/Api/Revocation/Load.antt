-- ===== src/Api/Revocation/Load.antt =====
-- The reads of a handler, and the invariant after them.
use mnemoca.Prelude.{
  Dict, ℕ, String, ◌≡◌, refl, inl, inr, Bool, true, false, some, arith, lookup, set_at, Result, ok,
  err, eq_refl, eq_iff, ℕ_discrete, Bool-cases,
}
use mnemoca.Store.Fault.{StoreError, not_found}
use mnemoca.Api.Key.{ApiKey, is_operator}
use mnemoca.Api.Operators.{OperatorSet}
use mnemoca.Api.Revocation.{str_eq, loaded, Phase, loading, claiming, auditing, checking, restoring}
use mnemoca.Api.Revocation.Phases.{holds, adds, creates, stores, mentions, targets, IsQuiet-Within}
use mnemoca.Api.Revocation.Invariant.{Inv, Inv-frame}
use mnemoca.Api.Revocation.Updates.{done-IsQuiet}

-- What a handler that has just read the key at `id` may do next.
record HasRead (id : String) (k : ApiKey) (p : Phase) : Type 0 where
  holds_none : (l : String) → holds p l ≡ false
  adds_none : (l : String) → adds p l ≡ false
  creates_none : (l : String) → creates p l ≡ false
  stores_none : (l : String) → stores p l ≡ false
  names_it : (l : String) → mentions p l ≡ true → str_eq id l ≡ true
  sees_it :
      (l : String) (op : Bool)
      → targets p l op ≡ true
      → (str_eq id l ≡ true) × (is_operator k.role ≡ op)

claiming_read : (id : String) (k : ApiKey) → HasRead id k (claiming id k)
unfolding holds adds creates stores mentions targets
claiming_read id k = record {
  holds_none = λ l. refl;
  adds_none = λ l. refl;
  creates_none = λ l. refl;
  stores_none = λ l. refl;
  names_it = λ l h. h;
  sees_it = λ l op h. ground arith;
}

auditing_read :
    (id : String) (k : ApiKey) → is_operator k.role ≡ false → HasRead id k (auditing id k)
unfolding holds adds creates stores mentions targets
auditing_read id k tenant = record {
  holds_none = λ l. ground arith;
  adds_none = λ l. refl;
  creates_none = λ l. refl;
  stores_none = λ l. refl;
  names_it = λ l h. h;
  sees_it = λ l op h. ground arith;
}

module _ {keys : Dict ApiKey} {o : OperatorSet} {now : ℕ} {pool : ℕ → Phase}
    (inv : Inv keys o now pool) (i : ℕ) (id : String) (k : ApiKey) where
  Inv-read :
      (p : Phase)
      → HasRead id k p
      → mentions (pool i) id ≡ true
      → lookup id keys ≡ some k
      → Inv keys o now (set_at pool i p)
  Inv-read p read named at = record {
    some_left = inv.some_left;
    distinct = inv.distinct;
    stored = inv.stored;
    unlisted = λ j l h. ground (arith, inv.unlisted j l, read.holds_none l);
    claimed = λ j l h. inv.claimed j l (ground (arith, read.holds_none l));
    unique = λ j m l h h'.
        inv.unique j m l (ground (arith, read.holds_none l)) (ground (arith, read.holds_none l));
    adding = λ j l h. inv.adding j l (ground (arith, read.adds_none l));
    seen = λ j l op k' h e. ground (arith, read.sees_it l op, inv.seen j l op k', eq_iff id l);
    alone = λ j m l h h'.
        inv.alone j m l (ground (arith, read.creates_none l))
          (ground (arith, read.names_it l, eq_iff id l));
    unwritten = λ j l h. inv.unwritten j l (ground (arith, read.stores_none l));
  }

  was_holding :
      pool i ≡ checking id k
      → is_operator k.role ≡ true
      → (j : ℕ) (l : String) → holds (set_at pool i (restoring id) j) l ≡ true
      → holds (pool j) l ≡ true
  unfolding holds
  was_holding at op j l h = elim (ℕ_discrete i j) [
    | yes e ↦ rw (← e) (rw at (ground arith))
    | no ne ↦ ground arith
  ]

  was_named :
      pool i ≡ checking id k
      → (j : ℕ) (l : String) → mentions (set_at pool i (restoring id) j) l ≡ true
      → mentions (pool j) l ≡ true
  unfolding mentions
  was_named at j l h = elim (ℕ_discrete i j) [
    | yes e ↦ rw (← e) (rw at (ground arith))
    | no ne ↦ ground arith
  ]

  still_operator :
      (k' : ApiKey)
      → pool i ≡ checking id k
      → is_operator k.role ≡ true
      → lookup id keys ≡ some k'
      → is_operator k'.role ≡ true
  unfolding targets
  still_operator k' at op found = inv.seen i id true k' (rw at (ground (arith, eq_refl id))) found

  -- The handler of a failed revocation found that the key survived.
  pub Inv-survived :
      (k' : ApiKey)
      → pool i ≡ checking id k
      → is_operator k.role ≡ true
      → lookup id keys ≡ some k'
      → Inv keys o now (set_at pool i (restoring id))
  unfolding holds adds creates stores mentions targets
  Inv-survived k' at op found = record {
    some_left = inv.some_left;
    distinct = inv.distinct;
    stored = inv.stored;
    unlisted = λ j l h. inv.unlisted j l (was_holding at op j l h);
    claimed = λ j l h. inv.claimed j l (was_holding at op j l h);
    unique = λ j m l h h'. inv.unique j m l (was_holding at op j l h) (was_holding at op m l h');
    adding = λ j l h. elim (ℕ_discrete i j) [
      | yes e ↦ (k', ground (arith, eq_iff id l), still_operator k' at op found)
      | no ne ↦ inv.adding j l (ground arith)
    ];
    seen = λ j l b k'' h. inv.seen j l b k'' (ground arith);
    alone = λ j m l h h'. inv.alone j m l (ground arith) (was_named at m l h');
    unwritten = λ j l h. inv.unwritten j l (ground arith);
  }

pub load-Inv :
    {keys : Dict ApiKey} {o : OperatorSet} {now : ℕ} {pool : ℕ → Phase}
    → Inv keys o now pool
    → (i : ℕ) (id : String) → pool i ≡ loading id
    → (r : Result StoreError ApiKey) → ((k : ApiKey) → r ≡ ok k → lookup id keys ≡ some k)
    → Inv keys o now (set_at pool i (loaded id r))
unfolding loaded mentions
load-Inv {pool} inv i id at (ok k) found =
    let named : mentions (pool i) id ≡ true = rw at (eq_refl id) in
    elim (Bool-cases (is_operator k.role)) [
      | inl op ↦ rw op (Inv-read inv i id k _ (claiming_read id k) named (found k refl))
      | inr tenant ↦
          rw tenant (Inv-read inv i id k _ (auditing_read id k tenant) named (found k refl))
    ]
load-Inv {pool} inv i id at (err not_found) found =
    Inv-frame inv i _ (IsQuiet-Within (pool i) (done-IsQuiet 404))
load-Inv {pool} inv i id at (err e) found =
    Inv-frame inv i _ (IsQuiet-Within (pool i) (done-IsQuiet 500))
