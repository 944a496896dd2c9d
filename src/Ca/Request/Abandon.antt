-- ===== src/Ca/Request/Abandon.antt =====
-- A request that fails leaves no certificate of its own valid.
use mnemoca.Store.Fault.{Fault, fine, refused, ghost}
use mnemoca.Store.Bucket.{Bucket, put, update}
use mnemoca.Ca.State.{CertRecord, CaState, log_ca}
use mnemoca.Ca.Issue.{revoke, mark_revoked}
use mnemoca.Ca.Request.{pos, ℕ, String, revoke_each}
use mathlib.Core.Option.{some-injective}
use mnemoca.Prelude.{
  Option-cases, Bool-cases, insert, sym, ap, ◌∙◌, false, true, some, str_eq, ◌≡◌, ℤ, Option, arith,
  lookup, eq_iff, eq_refl, contains, lookup-insert, ◌⊎◌, inl, inr, refl, List, [], ◌∷◌,
}

abbrev pub cert_at : CaState → String → String → Option CertRecord
cert_at s tenant serial = lookup serial (s.certs tenant).docs

-- No certificate with the serial is valid.
abbrev pub IsDead : CaState → String → String → Type 0
IsDead s tenant x = (rec : CertRecord) → cert_at s tenant x ≡ some rec → rec.revoked ≡ true

-- The update of a revocation leaves the bucket as it was, which cannot be if it did not fail and
-- the certificate was valid, or puts a revoked record.
marked :
    (f : Fault) (now : ℕ) (reason : ℤ) (serial : String) (b : Bucket CertRecord)
    → let b' = (update f false serial (mark_revoked now reason) b).1 in
      ((b' ≡ b)
        × (f ≡ fine → (rec : CertRecord) → lookup serial b.docs ≡ some rec → rec.revoked ≡ true))
      ⊎ ((new : CertRecord) × (new.revoked ≡ true) × (b'.docs ≡ insert serial new b.docs))
unfolding update
marked f now reason serial b = elim (Option-cases (lookup serial b.docs)) [
  | inl e ↦ inl (rw (update, e) refl, λ _ rec h. absurd (ground (arith, e, h)))
  | inr (rec, e) ↦ found rec e (Bool-cases rec.revoked) f
]
  where
    found :
        (rec : CertRecord)
        → lookup serial b.docs ≡ some rec
        → (rec.revoked ≡ true) ⊎ (rec.revoked ≡ false)
        → (f : Fault)
        → let b' = (update f false serial (mark_revoked now reason) b).1 in
          ((b' ≡ b)
            × (f ≡ fine
                → (rec : CertRecord) → lookup serial b.docs ≡ some rec
                → rec.revoked ≡ true))
          ⊎ ((new : CertRecord) × (new.revoked ≡ true) × (b'.docs ≡ insert serial new b.docs))
    found rec e (inl dead) f = inl (
      rw (update, e, dead) refl,
      λ _ other h. ap (λ r. r.revoked) (some-injective _ _ (sym h ∙ e)) ∙ dead,
    )
    found rec e (inr valid) fine = inr (
      record rec { revoked = true; revoked_at = now; reason_code = reason },
      refl,
      rw (update, e, valid) refl,
    )
    found rec e (inr valid) ghost = inr (
      record rec { revoked = true; revoked_at = now; reason_code = reason },
      refl,
      rw (update, e, valid) refl,
    )
    found rec e (inr valid) refused =
        inl (rw (update, e, valid) refl, λ h. absurd (ground (arith, h)))

pub revoke_docs :
    (f g : Fault) (now : ℕ) (tenant serial : String) (reason : ℤ) (s : CaState)
    → (revoke f g now tenant serial reason s).1.certs tenant
      ≡ (update f false serial (mark_revoked now reason) (s.certs tenant)).1
unfolding revoke log_ca
revoke_docs f g now tenant serial reason s = ground (arith, eq_refl tenant)

-- What a revocation does to the record under any serial.
revoke_at :
    (f g : Fault) (now : ℕ) (tenant serial : String) (reason : ℤ) (s : CaState) (x : String)
    → ((cert_at (revoke f g now tenant serial reason s).1 tenant x ≡ cert_at s tenant x)
        × (f ≡ fine → str_eq serial x ≡ true → IsDead s tenant x))
      ⊎ ((str_eq serial x ≡ true) × IsDead (revoke f g now tenant serial reason s).1 tenant x)
revoke_at f g now tenant serial reason s x =
    let moved = revoke_docs f g now tenant serial reason s in
    elim (marked f now reason serial (s.certs tenant)) [
      | inl (same, dead) ↦ inl (
        ap (λ b. lookup x b.docs) (moved ∙ same),
        λ good hit rec h.
            dead good rec (ap (λ y. lookup y (s.certs tenant).docs) ((eq_iff serial x).0 hit) ∙ h),
      )
      | inr (new, dead, put) ↦
          let now_at =
            ap (λ b. lookup x b.docs) moved
            ∙ ap (lookup x) put
            ∙ lookup-insert serial x new (s.certs tenant).docs in
          elim (Bool-cases (str_eq serial x)) [
            | inl hit ↦ inr (hit, λ rec h. ground (arith, h, now_at, hit, dead))
            | inr miss ↦
                inl (ground (arith, now_at, miss), λ _ hit. absurd (ground (arith, hit, miss)))
          ]
    ]

module _ (rev : String → Fault × Fault) (now : ℕ) (tenant : String) where
  revoke_each_keeps :
      (serials : List String) (s : CaState) (x : String)
      → IsDead s tenant x
      → IsDead (revoke_each rev now tenant serials s) tenant x
  unfolding revoke_each
  revoke_each_keeps [] s x dead = dead
  revoke_each_keeps (serial ∷ serials) s x dead =
      revoke_each_keeps serials (revoke (rev serial).0 (rev serial).1 now tenant serial (pos 5) s).1
        x
        (elim (revoke_at (rev serial).0 (rev serial).1 now tenant serial (pos 5) s x) [
          | inl (same, _) ↦ λ rec h. dead rec (sym same ∙ h)
          | inr (_, now_dead) ↦ now_dead
        ])

  -- If their updates do not fail, the revocations leave no valid certificate under their serials,
  -- and the records under the others as they were.
  pub revoke_each_at :
      ((serial : String) → (rev serial).0 ≡ fine)
      → (serials : List String) (s : CaState) (x : String)
      → IsDead (revoke_each rev now tenant serials s) tenant x
        ⊎ ((contains serials x ≡ false)
            × (cert_at (revoke_each rev now tenant serials s) tenant x ≡ cert_at s tenant x))
  unfolding revoke_each contains
  revoke_each_at good [] s x = inr (refl, refl)
  revoke_each_at good (serial ∷ serials) s x =
      let s' = (revoke (rev serial).0 (rev serial).1 now tenant serial (pos 5) s).1 in
      elim (revoke_at (rev serial).0 (rev serial).1 now tenant serial (pos 5) s x) [
        | inr (_, dead) ↦ inl (revoke_each_keeps serials s' x dead)
        | inl (same, hit_dead) ↦ elim (Bool-cases (str_eq serial x)) [
          | inl hit ↦ inl (
              revoke_each_keeps serials s' x
                (λ rec h. hit_dead (good serial) hit rec (sym same ∙ h)))
          | inr miss ↦ elim (revoke_each_at good serials s' x) [
            | inl dead ↦ inl dead
            | inr (absent, kept) ↦ inr (ground (arith, miss, absent), kept ∙ same)
          ]
        ]
      ]
