-- ===== src/Store/Mongo/Commits.antt =====
-- When an update takes effect: at one point of its run, on the document that is stored then.
use mnemoca.Prelude.{
  ℕ, zero, suc, ◌+◌, ◌*◌, String, Bool, true, false, Option, none, some, List, [], ◌∷◌, Result, ok,
  err, ◌≡◌, refl, ◌⊎◌, inl, inr, arith, Bool-cases, Result-cases, ap,
}
use mathlib.Core.Path.{subst}
use mathlib.Core.Option.{map}
use mnemoca.Store.Retried.{replayed}
use mnemoca.Store.Driver.{Driver, Doc, DriverError, Lawful, Holds, Elsewhere}
use mnemoca.Store.Mongo.{
  update_max_attempts, join_path, Setting, Callback, Ended, after_create, after_replace, on_missing,
  on_found, on_read, update_from, update,
}

module _ {V : Type 0} (d : Driver V) where
  abbrev pub value_at : d.Coll → String → String → Option V
  value_at c p k = map (λ (doc : Doc V). doc.value) (d.view c p k)

  -- A state that the other writers lead to, with no change by this one.
  pub data Reaches (env : Setting d.Coll) : d.Coll → d.Coll → Type 0 where
    here : {c : d.Coll} → Reaches env c c
    other : {c c₀ : d.Coll} (i : ℕ) → Reaches env (env.others i c) c₀ → Reaches env c c₀
    unchanged :
        {c c' c₀ : d.Coll}
        → ((q j : String) → d.view c' q j ≡ d.view c q j)
        → Reaches env c' c₀
        → Reaches env c c₀

  -- Every write of the document by others gives it another revision.
  abbrev pub IsVersioned : Setting d.Coll → String → String → Type 0
  IsVersioned env p k =
      (i : ℕ) (c : d.Coll) (doc doc' : Doc V)
      → d.view c p k ≡ some doc
      → d.view (env.others i c) p k ≡ some doc'
      → doc'.rev ≡ doc.rev
      → doc'.value ≡ doc.value

  module _ {E S : Type 0} (env : Setting d.Coll) (fn : Callback d E S) (p : String)
      (k : String) where
    -- One write of the callback's result on the value that was stored just before it.
    abbrev pub Committed : S → d.Coll → S → d.Coll → Type 0
    Committed s c s' c' =
        (lost : List (Option V)) × (c₀ : d.Coll) × (v : V) × Reaches env c c₀
        × (fn (replayed fn s lost) (value_at c₀ p k) ≡ (ok v, s'))
        × Holds d c' p k v
        × Elsewhere d p k c₀ c'

    abbrev Again : (S → d.Coll → Ended d E S) → S → d.Coll → Type 0
    Again again s' c' = (s : S) (c : d.Coll) → again s c ≡ (ok tt, s', c') → Committed s c s' c'

  module _ {E S : Type 0} where
    after_create_ok :
        (r : Result DriverError (Unit {0})) (s s' : S) (c c' : d.Coll) (again : Ended d E S)
        → after_create d r s c again ≡ (ok tt, s', c')
        → ((r ≡ ok tt) × (s ≡ s') × (c ≡ c'))
          ⊎ ((r ≡ err DriverError.duplicate) × (again ≡ (ok tt, s', c')))
    after_create_ok (ok _) s s' c c' again h =
        inl (refl, ap (λ (t : Ended d E S). t.1) h, ap (λ (t : Ended d E S). t.2) h)
    after_create_ok (err DriverError.duplicate) s s' c c' again h = inr (refl, h)
    after_create_ok (err DriverError.not_found) s s' c c' again h = absurd (ground (arith, h))
    after_create_ok (err DriverError.conflict) s s' c c' again h = absurd (ground (arith, h))
    after_create_ok (err DriverError.failed) s s' c c' again h = absurd (ground (arith, h))

    after_replace_ok :
        (r : Result DriverError (Unit {0})) (s s' : S) (c c' : d.Coll) (again : Ended d E S)
        → after_replace d r s c again ≡ (ok tt, s', c')
        → ((r ≡ ok tt) × (s ≡ s') × (c ≡ c'))
          ⊎ (((r ≡ err DriverError.conflict) ⊎ (r ≡ err DriverError.not_found))
              × (again ≡ (ok tt, s', c')))
    after_replace_ok (ok _) s s' c c' again h =
        inl (refl, ap (λ (t : Ended d E S). t.1) h, ap (λ (t : Ended d E S). t.2) h)
    after_replace_ok (err DriverError.conflict) s s' c c' again h = inr (inl refl, h)
    after_replace_ok (err DriverError.not_found) s s' c c' again h = inr (inr refl, h)
    after_replace_ok (err DriverError.duplicate) s s' c c' again h = absurd (ground (arith, h))
    after_replace_ok (err DriverError.failed) s s' c c' again h = absurd (ground (arith, h))

  module _ {E S : Type 0} (env : Setting d.Coll) (fn : Callback d E S) (p : String)
      (k : String) where
    -- an attempt that came too late changes nothing but the captured variables
    Committed-later :
        (s s' : S) (c c₁ c' : d.Coll) (o : Option V)
        → ((x : d.Coll) → Reaches env c₁ x → Reaches env c x)
        → Committed env fn p k (fn s o).1 c₁ s' c'
        → Committed env fn p k s c s' c'
    unfolding replayed
    Committed-later s s' c c₁ c' o reach (lost, c₀, v, steps, ran, holds, elsewhere) =
        (o ∷ lost, c₀, v, reach c₀ steps, ran, holds, elsewhere)

    missing-Committed :
        Lawful d
        → (create : Bool) (i : ℕ) (s s' : S) (c c' : d.Coll) (again : S → d.Coll → Ended d E S)
        → ((s₁ : S) (c₁ : d.Coll)
            → again s₁ c₁ ≡ (ok tt, s', c')
            → Committed env fn p k s₁ c₁ s' c')
        → on_missing d fn p k create (env.others i) s c again ≡ (ok tt, s', c')
        → Committed env fn p k s c s' c'
    unfolding on_missing replayed
    missing-Committed law false i s s' c c' again later h = absurd (ground (arith, h))
    missing-Committed law true i s s' c c' again later h = elim (Result-cases (fn s none).0) [
      | inl (e, q) ↦ absurd (ground (arith, h, q))
      | inr (v, q) ↦
          let pause = env.others i c in
          let wrote = d.create p k v pause in
          elim (after_create_ok wrote.0 (fn s none).1 s' wrote.1 c' (again (fn s none).1 wrote.1)
            (ground (arith, h, q))) [
              | inl (done, vars, ends) ↦
                  let (absent, holds, elsewhere) = law.created p k v pause done in
                  (
                    [],
                    pause,
                    v,
                    Reaches.other i Reaches.here,
                    ground (arith, absent, q, vars),
                    subst (λ x. Holds d x p k v) ends holds,
                    subst (λ x. Elsewhere d p k pause x) ends elsewhere,
                  )
              | inr (dup, more) ↦
                  Committed-later s s' c wrote.1 c' none
                    (λ x steps.
                      Reaches.other i (Reaches.unchanged (law.duplicated p k v pause dup) steps))
                    (later (fn s none).1 wrote.1 more)
            ]
    ]

    found-Committed :
        Lawful d
        → IsVersioned env p k
        → (i : ℕ) (s s' : S) (c c' : d.Coll) (doc : Doc V) (again : S → d.Coll → Ended d E S)
        → (d.view c p k ≡ some doc) × (doc.path ≡ p) × (doc.key ≡ k)
        → ((s₁ : S) (c₁ : d.Coll)
            → again s₁ c₁ ≡ (ok tt, s', c')
            → Committed env fn p k s₁ c₁ s' c')
        → on_found d fn p k doc (env.others i) s c again ≡ (ok tt, s', c')
        → Committed env fn p k s c s' c'
    unfolding on_found replayed
    found-Committed law versioned i s s' c c' doc again (seen, at_p, at_k) later h =
        elim (Result-cases (fn s (some doc.value)).0) [
          | inl (e, q) ↦ absurd (ground (arith, h, q))
          | inr (v, q) ↦
              let pause = env.others i c in
              let new : Doc V = record doc { value = v } in
              let wrote = d.replace new pause in
              let s₁ = (fn s (some doc.value)).1 in
              elim (after_replace_ok wrote.0 s₁ s' wrote.1 c' (again s₁ wrote.1)
                (ground (arith, h, q))) [
                  | inl (done, vars, ends) ↦
                      let ((old, stored, same), holds, elsewhere) = law.replaced new pause done in
                      let stored' : d.view pause p k ≡ some old = rw (← at_p, ← at_k) stored in
                      (
                        [],
                        pause,
                        v,
                        Reaches.other i Reaches.here,
                        ground (arith, stored', q, vars, versioned i c doc old seen stored' same),
                        subst (λ x. Holds d x p k v) ends (rw (← at_p, ← at_k) holds),
                        subst (λ x. Elsewhere d p k pause x) ends (rw (← at_p, ← at_k) elsewhere),
                      )
                  | inr (late, more) ↦
                      Committed-later s s' c wrote.1 c' (some doc.value)
                        (λ x steps.
                          Reaches.other i (Reaches.unchanged (law.outdated new pause late) steps))
                        (later s₁ wrote.1 more)
                ]
        ]

    read-Committed :
        Lawful d
        → IsVersioned env p k
        → (create : Bool) (i : ℕ) (s s' : S) (c c' : d.Coll) (r : Result DriverError (Doc V))
          (again : S → d.Coll → Ended d E S)
        → d.find_one p k c ≡ r
        → ((s₁ : S) (c₁ : d.Coll)
            → again s₁ c₁ ≡ (ok tt, s', c')
            → Committed env fn p k s₁ c₁ s' c')
        → on_read d fn p k create r (env.others i) s c again ≡ (ok tt, s', c')
        → Committed env fn p k s c s' c'
    unfolding on_read
    read-Committed law versioned create i s s' c c' (ok doc) again e later h =
        found-Committed law versioned i s s' c c' doc again (law.found p k c doc e) later h
    read-Committed law versioned create i s s' c c' (err DriverError.not_found) again e later h =
        missing-Committed law create i s s' c c' again later h
    read-Committed law versioned create i s s' c c' (err DriverError.duplicate) again e later h =
        absurd (ground (arith, h))
    read-Committed law versioned create i s s' c c' (err DriverError.conflict) again e later h =
        absurd (ground (arith, h))
    read-Committed law versioned create i s s' c c' (err DriverError.failed) again e later h =
        absurd (ground (arith, h))

    Committed-from :
        (i : ℕ) (s s' : S) (c c' : d.Coll)
        → Committed env fn p k s (env.others i c) s' c'
        → Committed env fn p k s c s' c'
    Committed-from i s s' c c' (lost, c₀, v, steps, ran, holds, elsewhere) =
        (lost, c₀, v, Reaches.other i steps, ran, holds, elsewhere)

    loop-Committed :
        Lawful d
        → IsVersioned env p k
        → (create : Bool) (n i : ℕ) (s s' : S) (c c' : d.Coll)
        → update_from d fn p k env create n i s c ≡ (ok tt, s', c')
        → Committed env fn p k s c s' c'
    unfolding update_from
    loop-Committed law versioned create zero i s s' c c' h = absurd (ground (arith, h))
    loop-Committed law versioned create (suc n) i s s' c c' h =
        elim (Bool-cases (env.is_cancelled i)) [
          | inl stop ↦ absurd (ground (arith, h, stop))
          | inr on ↦ Committed-from (2 * i) s s' c c' (
              read-Committed law versioned create (2 * i + 1) s s' (env.others (2 * i) c) c'
                (d.find_one p k (env.others (2 * i) c)) (update_from d fn p k env create n (suc i))
                refl (λ s₁ c₁ more. loop-Committed law versioned create n (suc i) s₁ s' c₁ c' more)
                (ground (arith, h, on)))
        ]

  -- An update that returns no error has run its callback on the value that was stored at one moment
  -- of its run, and has made that moment's state differ in the callback's result only.
  pub update_commits :
      {E S : Type 0} (env : Setting d.Coll) (fn : Callback d E S) (create : Bool)
      (path : List String) (p k : String) (s s' : S) (c c' : d.Coll)
      → Lawful d
      → IsVersioned env p k
      → join_path path ≡ some p
      → update d env create path k fn s c ≡ (ok tt, s', c')
      → Committed env fn p k s c s' c'
  unfolding update
  update_commits env fn create path p k s s' c c' law versioned joins h =
      loop-Committed env fn p k law versioned create update_max_attempts 0 s s' c c'
        (ground (arith, h, joins))
