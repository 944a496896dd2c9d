-- ===== src/Api/Revocation/Write.antt =====
-- The deletion and the creation of a key, and the invariant after them.
use mnemoca.Prelude.{
  ℕ, String, ◌≡◌, refl, ◌≢◌, Bool, true, false, none, arith, Dict, lookup, insert, remove,
  lookup-insert, lookup-remove, set_at, ℕ_discrete, inl, inr, Bool-cases, str_eq, eq_iff, eq_refl,
}
use mnemoca.Api.Key.{ApiKey, is_operator}
use mnemoca.Api.Operators.{OperatorSet}
use mnemoca.Api.Revocation.{Phase, deleting, storing, counting}
use mnemoca.Api.Revocation.Phases.{
  holds, adds, creates, stores, mentions, targets, Within, adds_owner, creates_named,
  stores_created, targets_named,
}
use mnemoca.Api.Revocation.Invariant.{Inv, OperatorAt}

module _ {keys : Dict ApiKey} {o : OperatorSet} {now : ℕ} {pool : ℕ → Phase}
    (inv : Inv keys o now pool) (i : ℕ) (p : Phase) where
  -- A listed or about to be listed id is not the one that the handler deletes.
  spared :
      (id : String) (k : ApiKey)
      → pool i ≡ deleting id k
      → OperatorAt keys id
      → (holds (pool i) id ≡ true)
  unfolding holds targets
  spared id k at (k', e, op) = rw at (ground (arith, inv.seen i id false k', eq_refl id))

  deleting_adds_none :
      (id : String) (k : ApiKey) → pool i ≡ deleting id k → (l : String) → adds (pool i) l ≡ false
  unfolding adds
  deleting_adds_none id k at l = rw at refl

  deleting_named : (id : String) (k : ApiKey) → pool i ≡ deleting id k → mentions (pool i) id ≡ true
  unfolding mentions
  deleting_named id k at = rw at (eq_refl id)

  -- Nobody is about to list the id that the handler deletes.
  unadded : (id : String) (k : ApiKey) → pool i ≡ deleting id k → (j : ℕ) → adds (pool j) id ≡ false
  unadded id k at j = elim (Bool-cases (adds (pool j) id)) [
    | inr free ↦ free
    | inl h ↦ elim (adds_owner (pool j) id h) [
      | inl own ↦ cc (
        inv.unique i j id (spared id k at (inv.adding j id h)) own,
        deleting_adds_none id k at id,
      )
      | inr (made, _) ↦
          cc (inv.alone j i id made (deleting_named id k at), deleting_adds_none id k at id)
    ]
  ]

  -- Delete, committed.
  pub Inv-delete :
      (id : String) (k : ApiKey)
      → pool i ≡ deleting id k
      → Within p (pool i)
      → Inv (remove id keys) o now (set_at pool i p)
  Inv-delete id k at w = record {
    some_left = inv.some_left;
    distinct = inv.distinct;
    stored = λ l h.
        let (k', e, op) = inv.stored l h in
        (
          k',
          ground (arith, lookup-remove id l keys, eq_iff id l, spared id k at, inv.unlisted i id),
          op,
        );
    unlisted = λ j l h. ground (arith, inv.unlisted j l, w.less_held l);
    claimed = λ j l h. inv.claimed j l (ground (arith, w.less_held l));
    unique = λ j l m h h'.
        inv.unique j l m (ground (arith, w.less_held m)) (ground (arith, w.less_held m));
    adding = λ j l h.
        let old : adds (pool j) l ≡ true = ground (arith, w.less_added l) in
        let (k', e, op) = inv.adding j l old in
        (k', ground (arith, lookup-remove id l keys, eq_iff id l, unadded id k at j), op);
    seen = λ j l op k' h e.
        inv.seen j l op k' (ground (arith, w.less_seen l op))
          (ground (arith, lookup-remove id l keys));
    alone = λ j l m h h'.
        inv.alone j l m (ground (arith, w.less_created m)) (ground (arith, w.less_named m));
    unwritten =
        λ j l h. ground (arith, inv.unwritten j l, w.less_stored l, lookup-remove id l keys);
  }

  storing_facts :
      (k : ApiKey)
      → pool i ≡ storing k
      → (lookup k.id keys ≡ none)
        × (creates (pool i) k.id ≡ true)
        × ((l : String) (b : Bool) → targets (pool i) l b ≡ false)
  unfolding stores creates targets
  storing_facts k at =
      (inv.unwritten i k.id (rw at (eq_refl k.id)), rw at (eq_refl k.id), λ l b. rw at refl)

  -- The key that is written has a fresh id.
  kept :
      (k : ApiKey)
      → pool i ≡ storing k
      → (l : String) → OperatorAt keys l
      → OperatorAt (insert k.id k keys) l
  kept k at l (k', e, o') =
      let (free, _, _) = storing_facts k at in
      (k', ground (arith, lookup-insert k.id l k keys, eq_iff k.id l), o')

  unseen :
      (k : ApiKey)
      → pool i ≡ storing k
      → (j : ℕ) (l : String) (b : Bool) → targets (pool j) l b ≡ true
      → str_eq k.id l ≡ false
  unseen k at j l b h = elim (Bool-cases (str_eq k.id l)) [
    | inr d ↦ d
    | inl e ↦
        let (_, made, blind) = storing_facts k at in
        let named : mentions (pool j) k.id ≡ true =
          rw ((eq_iff k.id l).0 e) (targets_named (pool j) l b h) in
        cc (inv.alone i j k.id made named, blind l b, h)
  ]

  was_creating :
      (k : ApiKey)
      → pool i ≡ storing k
      → Within p (counting k)
      → (j : ℕ) (m : String) → creates (set_at pool i p j) m ≡ true
      → creates (pool j) m ≡ true
  unfolding creates
  was_creating k at w j m h = elim (ℕ_discrete i j) [
    | yes e ↦ rw (← e) (rw at (ground (arith, w.less_created m)))
    | no ne ↦ ground arith
  ]

  was_named :
      (k : ApiKey)
      → pool i ≡ storing k
      → Within p (counting k)
      → (j : ℕ) (m : String) → mentions (set_at pool i p j) m ≡ true
      → mentions (pool j) m ≡ true
  unfolding mentions
  was_named k at w j m h = elim (ℕ_discrete i j) [
    | yes e ↦ rw (← e) (rw at (ground (arith, w.less_named m)))
    | no ne ↦ ground arith
  ]

  fresh_apart :
      (k : ApiKey)
      → pool i ≡ storing k
      → (j : ℕ) (l : String) → i ≢ j
      → stores (pool j) l ≡ true
      → str_eq k.id l ≡ false
  fresh_apart k at j l ne h = elim (Bool-cases (str_eq k.id l)) [
    | inr d ↦ d
    | inl e ↦
        let (_, made, _) = storing_facts k at in
        let named : mentions (pool j) k.id ≡ true =
          rw ((eq_iff k.id l).0 e) (creates_named (pool j) l (stores_created (pool j) l h)) in
        absurd (ne (inv.alone i j k.id made named))
  ]

  untouched :
      (k : ApiKey)
      → pool i ≡ storing k
      → Within p (counting k)
      → (j : ℕ) (l : String) → stores (set_at pool i p j) l ≡ true
      → lookup l (insert k.id k keys) ≡ none
  unfolding stores
  untouched k at w j l h = elim (ℕ_discrete i j) [
    | yes e ↦ ground (arith, w.less_stored l)
    | no ne ↦
        let old : stores (pool j) l ≡ true = ground arith in
        ground (
          arith,
          lookup-insert k.id l k keys,
          eq_iff k.id l,
          inv.unwritten j l old,
          fresh_apart k at j l ne old,
        )
  ]

  -- createKey's write, committed.
  pub Inv-store :
      (k : ApiKey)
      → pool i ≡ storing k
      → Within p (counting k)
      → ((l : String) → adds p l ≡ true → is_operator k.role ≡ true)
      → Inv (insert k.id k keys) o now (set_at pool i p)
  unfolding holds creates stores mentions targets adds
  Inv-store k at w op = record {
    some_left = inv.some_left;
    distinct = inv.distinct;
    stored = λ l h. kept k at l (inv.stored l h);
    unlisted = λ j l h. ground (arith, inv.unlisted j l, w.less_held l);
    claimed = λ j l h. inv.claimed j l (ground (arith, w.less_held l));
    unique = λ j l m h h'.
        inv.unique j l m (ground (arith, w.less_held m)) (ground (arith, w.less_held m));
    adding = λ j l h. elim (ℕ_discrete i j) [
      | yes e ↦
          let mine : adds p l ≡ true = ground arith in
          (k, ground (arith, w.less_added l, lookup-insert k.id l k keys), op l mine)
      | no ne ↦ kept k at l (inv.adding j l (ground arith))
    ];
    seen = λ j l b k' h e.
        let old : targets (pool j) l b ≡ true = ground (arith, w.less_seen l b) in
        inv.seen j l b k' old
          (ground (arith, lookup-insert k.id l k keys, eq_iff k.id l, unseen k at j l b old));
    alone = λ j l m h h'. inv.alone j l m (was_creating k at w j m h) (was_named k at w l m h');
    unwritten = λ j l h. untouched k at w j l h;
  }
