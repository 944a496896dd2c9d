-- ===== src/Api/Revocation/Safety.antt =====
-- In every reachable state an operator key is stored.
use mnemoca.Api.Revocation.Phases.{
  IsQuiet-Within, creates_named, targets, mentions, stores, creates, adds, holds,
}
use mnemoca.Api.Revocation.System.{
  here, tick, create, revoke, crash, next, call, Step, Reach, System,
}
use Prim.Native.Nat.{ℕ}
use mnemoca.Api.Revocation.Updates.{idle-IsQuiet, IsSafe}
use mnemoca.Api.Revocation.{storing, loading, false, idle, ApiKey, String, Phase}
use mnemoca.Prelude.{
  refl, [], ◌∷◌, eq_refl, length, ◌<◌, ◌+◌, eq_iff, set_at, arith, true, none, ◌≡◌, List, lookup,
  contains,
}
use mnemoca.Api.Revocation.Calls.{call_kept}
use mnemoca.Api.Revocation.Invariant.{Inv-frame, ClaimedAt, OperatorAt}
use mnemoca.Api.Operators.Laws.{Distinct}
use mnemoca.Api.State.{operator_set, Keys}

-- The set lists, once each, ids of stored operator keys, and at least one.
pub record IsSettled (s : Keys) : Type 0 where
  pub some_left : 0 < length (operator_set s).ids
  pub distinct : Distinct (operator_set s).ids
  pub stored : (id : String) → contains (operator_set s).ids id ≡ true → OperatorAt s.keys.docs id

settled-IsSafe :
    (s : Keys) (pool : ℕ → Phase) → IsSettled s → ((i : ℕ) → pool i ≡ idle) → IsSafe s pool
unfolding holds adds creates stores mentions targets
settled-IsSafe s pool settled quiet = record {
  some_left = settled.some_left;
  distinct = settled.distinct;
  stored = settled.stored;
  unlisted = λ i id h. ground (arith, quiet i);
  claimed = λ i id h. absurd (ground (arith, quiet i));
  unique = λ i j id h h'. ground (arith, quiet i);
  adding = λ i id h. absurd (ground (arith, quiet i));
  seen = λ i id op k h e. ground (arith, quiet i);
  alone = λ i j id h h'. ground (arith, quiet i);
  unwritten = λ i id h. ground (arith, quiet i);
}

module _ (s : Keys) {pool : ℕ → Phase} (safe : IsSafe s pool) (i : ℕ) where
  revoke_kept :
      (id : String)
      → ((j : ℕ) → creates (pool j) id ≡ false)
      → IsSafe s (set_at pool i (loading id))
  unfolding holds adds creates stores mentions targets
  revoke_kept id free = record {
    some_left = safe.some_left;
    distinct = safe.distinct;
    stored = safe.stored;
    unlisted = λ j l h. safe.unlisted j l (ground arith);
    claimed = λ j l h. safe.claimed j l (ground arith);
    unique = λ j m l h h'. safe.unique j m l (ground arith) (ground arith);
    adding = λ j l h. safe.adding j l (ground arith);
    seen = λ j l op k h. safe.seen j l op k (ground arith);
    alone = λ j m l h h'. ground (arith, safe.alone j m l, free j, eq_iff id l);
    unwritten = λ j l h. safe.unwritten j l (ground arith);
  }

  create_kept :
      (k : ApiKey)
      → lookup k.id s.keys.docs ≡ none
      → ((j : ℕ) → mentions (pool j) k.id ≡ false)
      → IsSafe s (set_at pool i (storing k))
  unfolding holds adds creates stores mentions targets
  create_kept k fresh free = record {
    some_left = safe.some_left;
    distinct = safe.distinct;
    stored = safe.stored;
    unlisted = λ j l h. safe.unlisted j l (ground arith);
    claimed = λ j l h. safe.claimed j l (ground arith);
    unique = λ j m l h h'. safe.unique j m l (ground arith) (ground arith);
    adding = λ j l h. safe.adding j l (ground arith);
    seen = λ j l op k h. safe.seen j l op k (ground arith);
    alone = λ j m l h h'.
        ground (arith, safe.alone j m l, free j, free m, eq_iff k.id l, creates_named (pool j) l);
    unwritten = λ j l h. ground (arith, safe.unwritten j l, eq_iff k.id l);
  }

tick_kept :
    (s : Keys) {pool : ℕ → Phase} (d : ℕ)
    → IsSafe s pool
    → ((j : ℕ) (id : String) → holds (pool j) id ≡ true → ClaimedAt (operator_set s) (s.now + d) id)
    → IsSafe (record s { now = s.now + d }) pool
unfolding operator_set
tick_kept s d safe fresh = record {
  some_left = safe.some_left;
  distinct = safe.distinct;
  stored = safe.stored;
  unlisted = safe.unlisted;
  claimed = fresh;
  unique = safe.unique;
  adding = safe.adding;
  seen = safe.seen;
  alone = safe.alone;
  unwritten = safe.unwritten;
}

Step-IsSafe : {s t : System} → Step s t → IsSafe s.shared s.pool → IsSafe t.shared t.pool
Step-IsSafe (call {s} i c f) safe = call_kept c f s.shared s.pool i safe (s.pool i) refl
Step-IsSafe (crash {s} i) safe = Inv-frame safe i idle (IsQuiet-Within (s.pool i) idle-IsQuiet)
Step-IsSafe (revoke {s} i id free) safe = revoke_kept s.shared safe i id free
Step-IsSafe (create {s} i k fresh free) safe = create_kept s.shared safe i k fresh free
Step-IsSafe (tick {s} d fresh) safe = tick_kept s.shared d safe fresh

Reach-IsSafe : {s t : System} → Reach s t → IsSafe s.shared s.pool → IsSafe t.shared t.pool
Reach-IsSafe here safe = safe
Reach-IsSafe (next r st) safe = Step-IsSafe st (Reach-IsSafe r safe)

first_listed : (ids : List String) → 0 < length ids → (id : String) × (contains ids id ≡ true)
unfolding contains
first_listed [] h = absurd (omega arith)
first_listed (x ∷ xs) h = (x, ground (arith, eq_refl x))

-- From a settled set and no handler under way, whatever steps any handlers make on any replicas,
-- with failing calls, lost replies and crashes among them, some listed id is that of a stored
-- operator key. The steps are those of `Step`: a creation takes an id that is neither stored nor
-- named by a handler, no revocation starts of an id whose creation is under way, and no claim of a
-- live handler expires.
pub operator_survives :
    {s t : System}
    → IsSettled s.shared
    → ((i : ℕ) → s.pool i ≡ idle)
    → Reach s t
    → (id : String) × (contains (operator_set t.shared).ids id ≡ true)
      × OperatorAt t.shared.keys.docs id
operator_survives {s} {t} settled quiet r =
    let safe : IsSafe t.shared t.pool =
      Reach-IsSafe r (settled-IsSafe s.shared s.pool settled quiet) in
    let (id, listed) = first_listed (operator_set t.shared).ids safe.some_left in
    (id, listed, safe.stored id listed)

-- In every state that is reached from a settled set with no handler under way, a claim on an
-- operator key is held by one handler at most, and its id is not counted.
pub claims_exclusive :
    {s t : System}
    → IsSettled s.shared
    → ((i : ℕ) → s.pool i ≡ idle)
    → Reach s t
    → (i j : ℕ) (id : String) → holds (t.pool i) id ≡ true
    → holds (t.pool j) id ≡ true
    → (i ≡ j) × (contains (operator_set t.shared).ids id ≡ false)
claims_exclusive {s} {t} settled quiet r i j id h h' =
    let safe : IsSafe t.shared t.pool =
      Reach-IsSafe r (settled-IsSafe s.shared s.pool settled quiet) in
    (safe.unique i j id h h', safe.unlisted i id h)
