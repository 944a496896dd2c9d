-- ===== src/Ca/Profiles/Default.antt =====
-- A tenant keeps its default profile.
use mnemoca.Ca.Profiles.{
  EditError, with_profile, without_profile, edit, set_profile, delete_profile,
}
use mnemoca.Store.Fault.{Fault}
use mnemoca.Store.Bucket.{update, store_out}
use mnemoca.Store.Bucket.Laws.{store_out_cases}
use mnemoca.Ca.Profile.{Profile, validate}
use mnemoca.Ca.State.{Tenant, CaState, CaEvent, log_ca}
use mnemoca.Prelude.{
  lookup-insert, Bool-cases, sym, Result-cases, lookup-remove, refl, ◌∙◌, ap, arith, false, String,
  Option, some, Result, ok, lookup, insert, str_eq, ◌≡◌, ◌⊎◌, inl, inr,
}

-- The tenant has a default profile.
abbrev pub HasDefault : CaState → String → Type 0
HasDefault s tenant =
    (t : Tenant) × (p : Profile) × (lookup tenant s.tenants.docs ≡ some t)
    × (lookup "default" t.profiles ≡ some p)

edit_tenants :
    (f g : Fault) (event : CaEvent) (fn : Option Tenant → Result EditError Tenant) (tenant : String)
    (s : CaState)
    → (edit f g event fn tenant s).1.tenants ≡ (update f false tenant fn s.tenants).1
unfolding edit log_ca
edit_tenants f g event fn tenant s = ground arith

edit_at :
    (f g : Fault) (event : CaEvent) (fn : Option Tenant → Result EditError Tenant) (tenant : String)
    (s : CaState) {t : Tenant}
    → lookup tenant s.tenants.docs ≡ some t
    → (lookup tenant (edit f g event fn tenant s).1.tenants.docs ≡ some t)
      ⊎ ((t' : Tenant) × (fn (some t) ≡ ok t')
          × (lookup tenant (edit f g event fn tenant s).1.tenants.docs ≡ some t'))
unfolding update
edit_at f g event fn tenant s {t} here =
    let moved = edit_tenants f g event fn tenant s in
    let stored : update f false tenant fn s.tenants ≡ store_out f tenant s.tenants (fn (some t)) =
      rw (update, here) refl in
    let at = ap (λ b. lookup tenant b.docs) (moved ∙ ap (λ u. u.1) stored) in
    elim (store_out_cases f tenant s.tenants (fn (some t))) [
      | inl (same, _) ↦ inl (at ∙ ap (λ b. lookup tenant b.docs) same ∙ here)
      | inr (t', e, now) ↦ inr (t', e, at ∙ now)
    ]

-- Each callback leaves a default profile where there was one.
with_profile_default :
    (p : Profile) (t : Tenant) {t' : Tenant} {d : Profile}
    → lookup "default" t.profiles ≡ some d
    → with_profile p (some t) ≡ ok t'
    → (d' : Profile) × (lookup "default" t'.profiles ≡ some d')
with_profile_default p t {t'} {d} had e =
    let same : record t { profiles = insert p.name p t.profiles } ≡ t' = ground (arith, e) in
    let at =
      ap (λ u. lookup "default" u.profiles) (sym same)
      ∙ lookup-insert p.name "default" p t.profiles in
    elim (Bool-cases (str_eq p.name "default")) [
      | inl hit ↦ (p, ground (arith, at, hit))
      | inr miss ↦ (d, ground (arith, at, miss, had))
    ]

without_profile_default :
    (name : String) (t : Tenant) {t' : Tenant} {d : Profile}
    → str_eq name "default" ≡ false
    → lookup "default" t.profiles ≡ some d
    → without_profile name (some t) ≡ ok t'
    → (d' : Profile) × (lookup "default" t'.profiles ≡ some d')
without_profile_default name t {t'} {d} other had e =
    (d, ground (arith, e, other, had, lookup-remove name "default" t.profiles))

module _ (f g : Fault) (tenant : String) (s : CaState) (had : HasDefault s tenant) where
  edit-HasDefault :
      (event : CaEvent) (fn : Option Tenant → Result EditError Tenant)
      → ((t t' : Tenant) (d : Profile)
          → lookup "default" t.profiles ≡ some d
          → fn (some t) ≡ ok t'
          → (d' : Profile) × (lookup "default" t'.profiles ≡ some d'))
      → HasDefault (edit f g event fn tenant s).1 tenant
  edit-HasDefault event fn keeps =
      let (t, d, here, found) = had in
      elim (edit_at f g event fn tenant s here) [
        | inl same ↦ (t, d, same, found)
        | inr (t', e, now) ↦ let (d', found') = keeps t t' d found e in (t', d', now, found')
      ]

  -- Whatever the outcomes of its calls, setting or deleting a profile leaves a tenant that has a
  -- default profile with one.
  pub default_stays :
      (p : Profile) (name : String)
      → HasDefault (set_profile f g tenant p s).1 tenant
        × HasDefault (delete_profile f g tenant name s).1 tenant
  unfolding set_profile lookup delete_profile
  default_stays p name = (
    elim (Result-cases (validate p)) [
      | inl (e, bad) ↦ rw (set_profile, bad) had
      | inr (_, good) ↦
          rw (set_profile, good)
            (edit-HasDefault _ (with_profile p) (λ t t' d. with_profile_default p t))
    ],
    elim (Bool-cases (str_eq name "default")) [
      | inl hit ↦ rw (delete_profile, hit) had
      | inr miss ↦
          rw (delete_profile, miss)
            (edit-HasDefault _ (without_profile name)
              (λ t t' d. without_profile_default name t miss))
    ],
  )
