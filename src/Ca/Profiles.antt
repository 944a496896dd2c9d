-- ===== src/Ca/Profiles.antt =====
-- internal/ca/profiles.go: SetProfile and DeleteProfile.
pub mod Default
use mnemoca.Store.Fault.{Fault, StoreError, UpdateError, of_store, rejected, not_found}
use mnemoca.Store.Bucket.{Bucket, update, store_out}
use mnemoca.Store.Bucket.Laws.{store_out_cases}
use mnemoca.Ca.Profile.{Profile, ProfileError, validate}
use mnemoca.Ca.State.{Tenant, CaState, CaEvent, log_ca}
use mnemoca.Prelude.{
  lookup-insert, Bool-cases, sym, Result-cases, lookup-remove, refl, ◌∙◌, ap, arith, [], false, ◌∷◌,
  String, Option, some, none, Result, ok, err, lookup, insert, remove, str_eq, if◌then◌else◌, ◌≡◌,
  ◌⊎◌, inl, inr,
}

pub data EditError : Type 0 where
  invalid : ProfileError → EditError
  default_kept no_such_profile unknown_tenant store_failed audit_failed : EditError

-- the two callbacks; a tenant that is absent is refused before they are called
abbrev pub with_profile : Profile → Option Tenant → Result EditError Tenant
with_profile p none = err unknown_tenant
with_profile p (some t) = ok (record t { profiles = insert p.name p t.profiles })

abbrev pub without_profile : String → Option Tenant → Result EditError Tenant
without_profile name none = err unknown_tenant
without_profile name (some t) = elim (lookup name t.profiles) [
  | none ↦ err no_such_profile
  | some _ ↦ ok (record t { profiles = remove name t.profiles })
]

abbrev edit_error : UpdateError EditError → EditError
edit_error (of_store not_found) = unknown_tenant
edit_error (of_store _) = store_failed
edit_error (rejected e) = e

-- the update of the tenant and the audit record of either
unfoldable pub edit :
    Fault
    → Fault
    → CaEvent
    → (Option Tenant → Result EditError Tenant)
    → String
    → CaState
    → Result EditError (Unit {0}) × CaState
edit f g event fn tenant s =
    let (r, b) = update f false tenant fn s.tenants in
    let s' = record s { tenants = b } in
    elim r [
      | err e ↦ (err (edit_error e), s')
      | ok _ ↦
          let (w, s'') = log_ca g event s' in
          (elim w [ ok _ ↦ ok tt | err _ ↦ err EditError.audit_failed ], s'')
    ]

unfoldable pub set_profile :
    Fault → Fault → String → Profile → CaState → Result EditError (Unit {0}) × CaState
unfolding edit
set_profile f g tenant p s = elim (validate p) [
  | err e ↦ (err (EditError.invalid e), s)
  | ok _ ↦
      edit f g (record { tenant = tenant; action = "profile.set"; objects = p.name ∷ [] })
        (with_profile p) tenant s
]

unfoldable pub delete_profile :
    Fault → Fault → String → String → CaState → Result EditError (Unit {0}) × CaState
unfolding edit
delete_profile f g tenant name s =
    if str_eq name "default"
    then (err EditError.default_kept, s)
    else edit f g (record { tenant = tenant; action = "profile.delete"; objects = name ∷ [] })
        (without_profile name) tenant s
