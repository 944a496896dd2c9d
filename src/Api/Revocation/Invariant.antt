-- ===== src/Api/Revocation/Invariant.antt =====
-- The invariant of the operator set against the stored keys and the handlers under way.
use mnemoca.Prelude.{
  ℕ, ◌+◌, ◌<◌, String, ◌≡◌, Bool, true, false, none, some, arith, Dict, lookup, length, contains,
  set_at,
}
use mnemoca.Api.Key.{ApiKey, is_operator}
use mnemoca.Api.Operators.{OperatorSet}
use mnemoca.Api.Operators.Laws.{Distinct}
use mnemoca.Api.Revocation.{Phase}
use mnemoca.Api.Revocation.Phases.{holds, adds, creates, stores, mentions, targets, Within}

-- An operator key is stored under the id.
abbrev pub OperatorAt : Dict ApiKey → String → Type 0
OperatorAt keys id = (k : ApiKey) × (lookup id keys ≡ some k) × (is_operator k.role ≡ true)

-- A claim on the id that is still fresh.
abbrev pub ClaimedAt : OperatorSet → ℕ → String → Type 0
ClaimedAt o now id = (t : ℕ) × (lookup id o.revoking ≡ some t) × (now < t + 300)

pub record Inv (keys : Dict ApiKey) (o : OperatorSet) (now : ℕ) (pool : ℕ → Phase) : Type 0 where
  pub some_left : 0 < length o.ids
  pub distinct : Distinct o.ids
  pub stored : (id : String) → contains o.ids id ≡ true → OperatorAt keys id
  pub unlisted : (i : ℕ) (id : String) → holds (pool i) id ≡ true → contains o.ids id ≡ false
  pub claimed : (i : ℕ) (id : String) → holds (pool i) id ≡ true → ClaimedAt o now id
  pub unique : (i j : ℕ) (id : String) → holds (pool i) id ≡ true → holds (pool j) id ≡ true → i ≡ j
  pub adding : (i : ℕ) (id : String) → adds (pool i) id ≡ true → OperatorAt keys id
  pub seen :
      (i : ℕ) (id : String) (op : Bool) (k : ApiKey)
      → targets (pool i) id op ≡ true
      → lookup id keys ≡ some k
      → is_operator k.role ≡ op
  pub alone :
      (i j : ℕ) (id : String) → creates (pool i) id ≡ true → mentions (pool j) id ≡ true → i ≡ j
  pub unwritten : (i : ℕ) (id : String) → stores (pool i) id ≡ true → lookup id keys ≡ none

module _ {keys : Dict ApiKey} {o : OperatorSet} {now : ℕ} {pool : ℕ → Phase}
    (inv : Inv keys o now pool) where
  -- A step that leaves the keys and the set alone, and after which the handler claims no more.
  pub Inv-frame : (i : ℕ) (p : Phase) → Within p (pool i) → Inv keys o now (set_at pool i p)
  Inv-frame i p w = record {
    some_left = inv.some_left;
    distinct = inv.distinct;
    stored = inv.stored;
    unlisted = λ j id h. ground (arith, inv.unlisted j id, inv.unlisted i id, w.less_held id);
    claimed = λ j id h. inv.claimed j id (ground (arith, w.less_held id));
    unique = λ j l id h h'.
        inv.unique j l id (ground (arith, w.less_held id)) (ground (arith, w.less_held id));
    adding = λ j id h. inv.adding j id (ground (arith, w.less_added id));
    seen = λ j id op k h. inv.seen j id op k (ground (arith, w.less_seen id op));
    alone = λ j l id h h'.
        inv.alone j l id (ground (arith, w.less_created id)) (ground (arith, w.less_named id));
    unwritten = λ j id h. inv.unwritten j id (ground (arith, w.less_stored id));
  }
