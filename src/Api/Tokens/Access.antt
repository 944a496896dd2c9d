-- ===== src/Api/Tokens/Access.antt =====
-- What a request has presented that reaches a handler.
use mnemoca.Prelude.{
  ℕ, String, true, some, [], ◌∷◌, Result, ok, err, ◌≡◌, refl, ◌⊎◌, inl, inr, arith, ap, eq_iff,
  lookup, cut_prefix, Result-cases, Bool-cases, Option-cases, sym, ◌∙◌,
}
use mathlib.Core.Path.{ap₂}
use mnemoca.Store.Fault.{Fault, StoreError}
use mnemoca.Store.Bucket.{Bucket, get}
use mnemoca.Store.Bucket.Laws.{get_found}
use mnemoca.Audit.Record.{Bytes}
use mnemoca.Api.Key.{ApiKey, is_operator, allows, role_operator, role_tenant}
use mnemoca.Api.State.{Keys}
use mnemoca.Api.Tokens.{
  Hashing, same_bytes, presented, check_secret, authenticate, KeyHandler, authed, operator_only,
  tenant_scoped, AuthError, refusal,
}

pub same_bytes→eq : (xs ys : Bytes) → same_bytes xs ys ≡ true → xs ≡ ys
unfolding same_bytes
same_bytes→eq [] [] h = refl
same_bytes→eq [] (y ∷ ys) h = absurd (ground (arith, h))
same_bytes→eq (x ∷ xs) [] h = absurd (ground (arith, h))
same_bytes→eq (x ∷ xs) (y ∷ ys) h =
    ap₂ (λ (z : ℕ) zs. z ∷ zs) (ground (arith, h)) (same_bytes→eq xs ys (ground (arith, h)))

module _ (h : Hashing) where
  -- The header holds the id of the stored key and a secret with its digest.
  abbrev pub Presents : String → Bucket ApiKey → ApiKey → Type 0
  Presents header keys key =
      (token : String) × (id : String) × (secret : String) × (cut_prefix "Bearer " header
        ≡ some token)
      × (presented h token ≡ some (id, secret))
      × (lookup id keys.docs ≡ some key)
      × (h.unhex key.hash ≡ some (h.sha256 secret))

  check_secret_ok :
      (secret : String) (r : Result StoreError ApiKey) (key : ApiKey)
      → check_secret h secret r ≡ ok key
      → (r ≡ ok key) × (h.unhex key.hash ≡ some (h.sha256 secret))
  check_secret_ok secret (err e) key good = absurd (ground (arith, good))
  check_secret_ok secret (ok old) key good = elim (Option-cases (h.unhex old.hash)) [
    | inl e ↦ absurd (ground (arith, good, e))
    | inr (stored, e) ↦ elim (Bool-cases (same_bytes (h.sha256 secret) stored)) [
      | inl hit ↦
          let same : old ≡ key = ground (arith, good, e, hit) in
          let digest = same_bytes→eq (h.sha256 secret) stored hit in
          (ap ok same, ap (λ (k : ApiKey). h.unhex k.hash) (sym same) ∙ e ∙ ap some (sym digest))
      | inr miss ↦ absurd (ground (arith, good, e, miss))
    ]
  ]

  pub authenticate-Presents :
      (f : Fault) (header : String) (keys : Bucket ApiKey) (key : ApiKey)
      → authenticate h f header keys ≡ ok key
      → Presents header keys key
  unfolding authenticate
  authenticate-Presents f header keys key good = elim (Option-cases (cut_prefix "Bearer " header)) [
    | inl e ↦ absurd (ground (arith, good, e))
    | inr (token, e) ↦ elim (Option-cases (presented h token)) [
      | inl bad ↦ absurd (ground (arith, good, e, bad))
      | inr ((id, secret), parts) ↦
          let (found, digest) =
            check_secret_ok secret (get f id keys) key (ground (arith, good, e, parts)) in
          (token, id, secret, e, parts, get_found f id keys found, digest)
    ]
  ]

  -- the request was answered by a refusal that changed nothing
  abbrev pub IsRefused : ℕ × Keys → Keys → Type 0
  IsRefused answer s = ((answer.0 ≡ 401) ⊎ ((answer.0 ≡ 403) ⊎ (answer.0 ≡ 500))) × (answer.1 ≡ s)

  refusal_cases :
      (e : AuthError) → (refusal h e ≡ 401) ⊎ ((refusal h e ≡ 403) ⊎ (refusal h e ≡ 500))
  refusal_cases AuthError.unauthorized = inl refl
  refusal_cases AuthError.corrupt_record = inr (inr refl)
  refusal_cases (AuthError.in_store e) = inr (inr refl)

  -- A handler behind operatorOnly runs only for a request that presents a stored key with the operator
  -- role; every other request is refused and changes nothing.
  pub operator_route :
      (f : Fault) (header : String) (next : KeyHandler h) (s : Keys)
      → let answer = authed h f header (operator_only h next) s in
        ((key : ApiKey) × Presents header s.keys key
          × (key.role ≡ role_operator)
          × (answer ≡ next key s))
        ⊎ IsRefused answer s
  unfolding authed operator_only is_operator
  operator_route f header next s = elim (Result-cases (authenticate h f header s.keys)) [
    | inl (e, bad) ↦ inr (rw (bad, authed) (refusal_cases e, refl))
    | inr (key, good) ↦ elim (Bool-cases (is_operator key.role)) [
      | inl may ↦ inl (
        key,
        authenticate-Presents f header s.keys key good,
        (eq_iff key.role role_operator).0 may,
        ground (arith, good, may),
      )
      | inr may_not ↦ inr (ground (arith, good, may_not))
    ]
  ]

  -- A handler behind tenantScoped runs only for a request that presents a stored key which is an
  -- operator's, or a tenant key of the tenant in the path; every other request is refused and changes
  -- nothing.
  pub tenant_route :
      (f : Fault) (header tenant : String) (next : KeyHandler h) (s : Keys)
      → let answer = authed h f header (tenant_scoped h tenant next) s in
        ((key : ApiKey) × Presents header s.keys key
          × ((key.role ≡ role_operator) ⊎ ((key.role ≡ role_tenant) × (key.tenant ≡ tenant)))
          × (answer ≡ next key s))
        ⊎ IsRefused answer s
  unfolding authed tenant_scoped allows is_operator
  tenant_route f header tenant next s = elim (Result-cases (authenticate h f header s.keys)) [
    | inl (e, bad) ↦ inr (rw (bad, authed) (refusal_cases e, refl))
    | inr (key, good) ↦ elim (Bool-cases (allows key tenant)) [
      | inl may ↦ inl (
        key,
        authenticate-Presents f header s.keys key good,
        ground (
          arith,
          may,
          eq_iff key.role role_operator,
          eq_iff key.role role_tenant,
          eq_iff key.tenant tenant,
        ),
        ground (arith, good, may),
      )
      | inr may_not ↦ inr (ground (arith, good, may_not))
    ]
  ]
