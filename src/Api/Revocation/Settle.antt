-- ===== src/Api/Revocation/Settle.antt =====
-- The updates of finishRevoke and addOperator, and the invariant after them.
use mnemoca.Prelude.{
  ◌≢◌, ℕ, [], ◌∷◌, length-append, String, ◌≡◌, ◌≢◌, true, false, arith, Dict, lookup-remove,
  delete_all, delete_all_of_not-contains, set_at, ℕ_discrete, inl, inr, Bool-cases, str_eq, eq_iff,
}
use mnemoca.Api.Key.{ApiKey}
use mnemoca.Api.Operators.{OperatorSet, finish_revoke, add_operator, has}
use mnemoca.Api.Operators.Laws.{add_operator-Distinct, has-add_operator}
use mnemoca.Api.Revocation.{Phase}
use mnemoca.Api.Revocation.Phases.{holds, adds, IsQuiet, adds_owner, holds_named}
use mnemoca.Api.Revocation.Invariant.{Inv}

module _ {keys : Dict ApiKey} {o : OperatorSet} {now : ℕ} {pool : ℕ → Phase}
    (inv : Inv keys o now pool) (i : ℕ) (p : Phase) (quiet : IsQuiet p) where
  -- Another handler's claim is on another id.
  apart :
      (id l : String) (j : ℕ)
      → holds (pool i) id ≡ true
      → i ≢ j
      → holds (pool j) l ≡ true
      → str_eq id l ≡ false
  apart id l j held ne old = elim (Bool-cases (str_eq id l)) [
    | inr d ↦ d
    | inl e ↦ absurd (ne (inv.unique i j id held (rw ((eq_iff id l).0 e) old)))
  ]

  -- finishRevoke's update by the holder of the claim.
  pub Inv-finish :
      (id : String) → holds (pool i) id ≡ true → Inv keys (finish_revoke id o) now (set_at pool i p)
  unfolding finish_revoke
  Inv-finish id held =
      let same : delete_all o.ids id ≡ o.ids =
        delete_all_of_not-contains o.ids id (inv.unlisted i id held) in
      rw same record {
        some_left = inv.some_left;
        distinct = inv.distinct;
        stored = inv.stored;
        unlisted = λ j l h. ground (arith, inv.unlisted j l, quiet.holds_none l);
        claimed = λ j l h. elim (ℕ_discrete i j) [
          | yes e ↦ ground (arith, quiet.holds_none l)
          | no ne ↦
              let old : holds (pool j) l ≡ true = ground arith in
              let (t, e, fresh) = inv.claimed j l old in
              (t, ground (arith, lookup-remove id l o.revoking, apart id l j held ne old), fresh)
        ];
        unique = λ j l m h h'. ground (arith, inv.unique j l m, quiet.holds_none m);
        adding = λ j l h. inv.adding j l (ground (arith, quiet.adds_none l));
        seen = λ j l op k h. inv.seen j l op k (ground (arith, quiet.sees_none l op));
        alone = λ j l m h h'.
            inv.alone j l m (ground (arith, quiet.creates_none m))
              (ground (arith, quiet.names_none m));
        unwritten = λ j l h. inv.unwritten j l (ground (arith, quiet.stores_none l));
      }

  -- No other handler holds a claim on an id that this one is about to list.
  unrivalled : (id : String) → adds (pool i) id ≡ true → (j : ℕ) → holds (pool j) id ≡ true → i ≡ j
  unrivalled id h j held = elim (adds_owner (pool i) id h) [
    | inl own ↦ inv.unique i j id own held
    | inr (made, _) ↦ inv.alone i j id made (holds_named (pool j) id held)
  ]

  -- addOperator's update, by abortRevoke or by createKey.
  pub Inv-add :
      (id : String) → adds (pool i) id ≡ true → Inv keys (add_operator id o) now (set_at pool i p)
  unfolding add_operator has
  Inv-add id adding = record {
    some_left = ground (arith, inv.some_left, length-append o.ids (id ∷ []));
    distinct = add_operator-Distinct id o inv.distinct;
    stored = λ l h. elim (Bool-cases (str_eq id l)) [
      | inl e ↦ rw (← (eq_iff id l).0 e) (inv.adding i id adding)
      | inr ne ↦ inv.stored l (ground (arith, has-add_operator id l o))
    ];
    unlisted = λ j l h. ground (
      arith,
      has-add_operator id l o,
      inv.unlisted j l,
      quiet.holds_none l,
      eq_iff id l,
      unrivalled id adding j,
    );
    claimed = λ j l h. elim (ℕ_discrete i j) [
      | yes e ↦ ground (arith, quiet.holds_none l)
      | no ne ↦
          let old : holds (pool j) l ≡ true = ground arith in
          let (t, e, fresh) = inv.claimed j l old in
          (
            t,
            ground (arith, lookup-remove id l o.revoking, eq_iff id l, unrivalled id adding j),
            fresh,
          )
    ];
    unique = λ j l m h h'. ground (arith, inv.unique j l m, quiet.holds_none m);
    adding = λ j l h. inv.adding j l (ground (arith, quiet.adds_none l));
    seen = λ j l op k h. inv.seen j l op k (ground (arith, quiet.sees_none l op));
    alone = λ j l m h h'.
        inv.alone j l m (ground (arith, quiet.creates_none m)) (ground (arith, quiet.names_none m));
    unwritten = λ j l h. inv.unwritten j l (ground (arith, quiet.stores_none l));
  }
