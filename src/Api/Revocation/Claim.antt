-- ===== src/Api/Revocation/Claim.antt =====
-- The update of beginRevoke, and the invariant after it.
use mnemoca.Prelude.{
  ℕ, ◌⊎◌, ◌+◌, ◌<◌, String, ◌≡◌, true, false, some, arith, Dict, lookup, insert, lookup-insert,
  contains-delete_all, set_at, inl, inr, Bool-cases, eq_iff, eq_refl, ok,
}
use mnemoca.Api.Key.{ApiKey}
use mnemoca.Api.Operators.{OperatorSet, begin_revoke}
use mnemoca.Api.Operators.Laws.{begin_revoke_lem, begin_revoke_claimed}
use mnemoca.Api.Revocation.{Phase, claiming, auditing}
use mnemoca.Api.Revocation.Phases.{holds, adds, creates, stores, mentions, targets, Within}
use mnemoca.Api.Revocation.Invariant.{Inv}

module _ {keys : Dict ApiKey} {o : OperatorSet} {now : ℕ} {pool : ℕ → Phase}
    (inv : Inv keys o now pool) where
  -- A claim that is let through was held by nobody.
  unclaimed :
      (id : String) {o' : OperatorSet}
      → begin_revoke now id o ≡ ok o'
      → (j : ℕ) → holds (pool j) id ≡ false
  unclaimed id won j = elim (Bool-cases (holds (pool j) id)) [
    | inr free ↦ free
    | inl held ↦
        let (t, e, fresh) = inv.claimed j id held in
        cc (begin_revoke_claimed now t id o e fresh, won)
  ]

  claim_kept :
      (id : String) {o' : OperatorSet}
      → begin_revoke now id o ≡ ok o'
      → (j : ℕ) (l : String) → holds (pool j) l ≡ true
      → (t : ℕ) × (lookup l (insert id now o.revoking) ≡ some t) × (now < t + 300)
  claim_kept id won j l h =
      let (t, e, fresh) = inv.claimed j l h in
      (t, ground (arith, lookup-insert id l now o.revoking, eq_iff id l, unclaimed id won j), fresh)

  -- After the claim a holder is the claimant, of this id, or was one before.
  holders :
      (i : ℕ) (id : String) (k : ApiKey) (p : Phase)
      → Within p (auditing id k)
      → (j : ℕ) (l : String) → holds (set_at pool i p j) l ≡ true
      → ((i ≡ j) × (id ≡ l)) ⊎ (holds (pool j) l ≡ true)
  unfolding holds
  holders i id k p w j l h = ground (arith, w.less_held l, eq_iff id l)

  -- beginRevoke's update, committed.
  pub Inv-claim :
      (i : ℕ) (id : String) (k : ApiKey) (p : Phase) {o' : OperatorSet}
      → pool i ≡ claiming id k
      → begin_revoke now id o ≡ ok o'
      → Within p (auditing id k)
      → Inv keys o' now (set_at pool i p)
  unfolding holds adds creates stores mentions targets
  Inv-claim i id k p at won w =
      let (some_left, distinct, shape) = begin_revoke_lem now id o inv.distinct won in
      rw shape record {
        some_left = rw shape at some_left;
        distinct = rw shape at distinct;
        stored = λ l h. inv.stored l (ground (arith, contains-delete_all o.ids id l));
        unlisted = λ j l h. ground (
          arith,
          holders i id k p w j l,
          inv.unlisted j l,
          contains-delete_all o.ids id l,
          eq_refl id,
        );
        claimed = λ j l h. elim (holders i id k p w j l h) [
          | inl (_, e) ↦ (now, rw (← e) (rw (lookup-insert, eq_refl)), omega arith)
          | inr old ↦ claim_kept id won j l old
        ];
        unique = λ j l m h h'. ground (
          arith,
          holders i id k p w j m,
          holders i id k p w l m,
          inv.unique j l m,
          unclaimed id won j,
          unclaimed id won l,
        );
        adding = λ j l h. inv.adding j l (ground (arith, w.less_added l));
        seen = λ j l op k' h. inv.seen j l op k' (ground (arith, w.less_seen l op));
        alone = λ j l m h h'.
            inv.alone j l m (ground (arith, w.less_created m)) (ground (arith, w.less_named m));
        unwritten = λ j l h. inv.unwritten j l (ground (arith, w.less_stored l));
      }
