-- ===== src/Acme/Opening/Authzs.antt =====
-- The authorizations that opening an order stores.
use mnemoca.Prelude.{
  ℕ, ◌+◌, String, Bool, true, false, some, List, [], ◌∷◌, Result, ok, err, ◌>>=◌, ◌≡◌, refl, ◌⊎◌,
  inl, inr, arith, ap, sym, ◌∙◌, Result-cases, lookup, cut_prefix,
}
use mathlib.Core.Path.{subst}
use mnemoca.Store.Bucket.{Bucket, put}
use mnemoca.Store.Bucket.Laws.{put-lookup}
use mnemoca.Acme.Problem.{AcmeError, in_store}
use mnemoca.Acme.Orders.{Authz, Order}
use mnemoca.Acme.Challenges.{Trials}
use mnemoca.Acme.Opening.{
  AuthzCall, is_wildcard, store_challenge, open_challenges, authz_of, open_authz, open_authzs,
}
use mnemoca.Acme.Opening.Places.{
  Placed, first, later, IsFresh, authz_ids_of, open_challenges-HasChallenges,
}

open_challenges_rest :
    (c : AuthzCall) (wild : Bool) (s : Trials)
    → let s' = (open_challenges c wild s).1 in (s'.authzs ≡ s.authzs) × (s'.orders ≡ s.orders)
unfolding open_challenges store_challenge
open_challenges_rest c true s = (refl, refl)
open_challenges_rest c false s =
    elim (Result-cases
      (store_challenge c.on_http c.http_id c.authz_id "http-01" c.http_token s).0) [
        | inl (e, bad) ↦ (rw (open_challenges, bad) refl, rw (open_challenges, bad) refl)
        | inr (ids, good) ↦ (rw (open_challenges, good) refl, rw (open_challenges, good) refl)
      ]

open_authz_authzs :
    (c : AuthzCall) (o : Order) (name : String) (s : Trials) (id : String) (x : Authz)
    → lookup id (open_authz c o name s).1.authzs.docs ≡ some x
    → (lookup id s.authzs.docs ≡ some x) ⊎ IsFresh o c name id x
unfolding open_authz
open_authz_authzs c o name s id x h =
    let wild = is_wildcard (cut_prefix "*." name) in
    let t = (open_challenges c wild s).1 in
    let (same, _) = open_challenges_rest c wild s in
    let back = ap (λ (b : Bucket Authz). lookup id b.docs) (sym same) in
    elim (Result-cases (open_challenges c wild s).0) [
      | inl (e, bad) ↦
          let left : (open_authz c o name s).1.authzs ≡ t.authzs = rw (open_authz, bad) refl in
          inl (back ∙ ap (λ (b : Bucket Authz). lookup id b.docs) (sym left) ∙ h)
      | inr (ids, good) ↦
          let left : (open_authz c o name s).1.authzs
              ≡ (put c.on_authz c.authz_id (authz_of c o name ids) t.authzs).1 =
            rw (open_authz, good) refl in
          let found = ap (λ (b : Bucket Authz). lookup id b.docs) (sym left) ∙ h in
          elim (put-lookup c.on_authz c.authz_id (authz_of c o name ids) t.authzs id) [
            | inl kept ↦ inl (back ∙ sym kept ∙ found)
            | inr (at, put_there) ↦
                let made : authz_of c o name ids ≡ x = ground (arith, put_there, found) in
                let challenged = open_challenges-HasChallenges c name s ids good in
                inr (
                  subst (λ y. IsFresh o c name id y) made
                    (at, sym at, refl, refl, refl, refl, refl, challenged))
          ]
    ]

open_authz_orders :
    (c : AuthzCall) (o : Order) (name : String) (s : Trials)
    → (open_authz c o name s).1.orders ≡ s.orders
unfolding open_authz
open_authz_orders c o name s =
    let wild = is_wildcard (cut_prefix "*." name) in
    let (_, same) = open_challenges_rest c wild s in
    elim (Result-cases (open_challenges c wild s).0) [
      | inl (e, bad) ↦ rw (open_authz, bad) same
      | inr (ids, good) ↦ rw (open_authz, good) same
    ]

at_first :
    (calls : ℕ → AuthzCall) (i : ℕ) (o : Order) (name : String) (names : List String) (s : Trials)
    (id : String) (x : Authz)
    → lookup id (open_authz (calls i) o name s).1.authzs.docs ≡ some x
    → (lookup id s.authzs.docs ≡ some x)
      ⊎ ((call : AuthzCall) × (other : String) × Placed calls i (name ∷ names) call other
          × IsFresh o call other id x)
at_first calls i o name names s id x h = elim (open_authz_authzs (calls i) o name s id x h) [
  | inl before ↦ inl before
  | inr fresh ↦ inr (calls i, name, first i name names, fresh)
]

pub open_authzs_authzs :
    (calls : ℕ → AuthzCall) (i : ℕ) (o : Order) (names : List String) (s : Trials) (id : String)
    (x : Authz)
    → lookup id (open_authzs calls i o names s).1.authzs.docs ≡ some x
    → (lookup id s.authzs.docs ≡ some x)
      ⊎ ((call : AuthzCall) × (name : String) × Placed calls i names call name
          × IsFresh o call name id x)
unfolding open_authzs
open_authzs_authzs calls i o [] s id x h = inl h
open_authzs_authzs calls i o (name ∷ names) s id x h =
    let t = (open_authz (calls i) o name s).1 in
    elim (Result-cases (open_authz (calls i) o name s).0) [
      | inl (e, bad) ↦
          let left : (open_authzs calls i o (name ∷ names) s).1 ≡ t = rw (open_authzs, bad) refl in
          at_first calls i o name names s id x
            (ap (λ (u : Trials). lookup id u.authzs.docs) (sym left) ∙ h)
      | inr (az, good) ↦
          let left : (open_authzs calls i o (name ∷ names) s).1
              ≡ (open_authzs calls (i + 1) o names t).1 =
            rw (open_authzs, good) refl in
          elim (open_authzs_authzs calls (i + 1) o names t id x
            (ap (λ (u : Trials). lookup id u.authzs.docs) (sym left) ∙ h)) [
              | inl before ↦ at_first calls i o name names s id x before
              | inr (call, other, placed, fresh) ↦
                  inr (call, other, later i name other names call placed, fresh)
            ]
    ]

pub open_authzs_orders :
    (calls : ℕ → AuthzCall) (i : ℕ) (o : Order) (names : List String) (s : Trials)
    → (open_authzs calls i o names s).1.orders ≡ s.orders
unfolding open_authzs
open_authzs_orders calls i o [] s = refl
open_authzs_orders calls i o (name ∷ names) s =
    let t = (open_authz (calls i) o name s).1 in
    let same = open_authz_orders (calls i) o name s in
    elim (Result-cases (open_authz (calls i) o name s).0) [
      | inl (e, bad) ↦ rw (open_authzs, bad) same
      | inr (az, good) ↦ rw (open_authzs, good) (open_authzs_orders calls (i + 1) o names t ∙ same)
    ]

open_authz_id :
    (c : AuthzCall) (o : Order) (name : String) (s : Trials) (id : String)
    → (open_authz c o name s).0 ≡ ok id
    → id ≡ c.authz_id
unfolding open_authz
open_authz_id c o name s id h =
    let wild = is_wildcard (cut_prefix "*." name) in
    let t = (open_challenges c wild s).1 in
    elim (Result-cases (open_challenges c wild s).0) [
      | inl (e, bad) ↦
          let left : (open_authz c o name s).0 ≡ err e = rw (open_authz, bad) refl in
          absurd (ground (arith, left, h))
      | inr (ids, good) ↦
          elim (Result-cases (put c.on_authz c.authz_id (authz_of c o name ids) t.authzs).0) [
            | inl (e, bad) ↦
                let left : (open_authz c o name s).0 ≡ err (in_store e) =
                  rw (open_authz, good, bad) refl in
                absurd (ground (arith, left, h))
            | inr (_, done) ↦
                let left : (open_authz c o name s).0 ≡ ok c.authz_id =
                  rw (open_authz, good, done) refl in
                ground (arith, left, h)
          ]
    ]

bound_ids :
    (r : Result AcmeError (List String)) (id : String) (ids : List String)
    → (r >>= λ rest. ok (id ∷ rest)) ≡ ok ids
    → (rest : List String) × (r ≡ ok rest) × (ids ≡ id ∷ rest)
bound_ids (err e) id ids h = absurd (ground (arith, h))
bound_ids (ok rest) id ids h = (rest, refl, ground (arith, h))

-- The authorizations that are opened have the ids of their places.
pub open_authzs-authz_ids_of :
    (calls : ℕ → AuthzCall) (i : ℕ) (o : Order) (names : List String) (s : Trials)
    (ids : List String)
    → (open_authzs calls i o names s).0 ≡ ok ids
    → ids ≡ authz_ids_of calls i names
unfolding open_authzs
open_authzs-authz_ids_of calls i o [] s ids h = ground (arith, h)
open_authzs-authz_ids_of calls i o (name ∷ names) s ids h =
    let t = (open_authz (calls i) o name s).1 in
    elim (Result-cases (open_authz (calls i) o name s).0) [
      | inl (e, bad) ↦
          let left : (open_authzs calls i o (name ∷ names) s).0 ≡ err e =
            rw (open_authzs, bad) refl in
          absurd (ground (arith, left, h))
      | inr (az, good) ↦
          let left : (open_authzs calls i o (name ∷ names) s).0
              ≡ ((open_authzs calls (i + 1) o names t).0 >>= λ ids'. ok (az ∷ ids')) =
            rw (open_authzs, good) refl in
          let (rest, again, split) =
            bound_ids (open_authzs calls (i + 1) o names t).0 az ids (sym left ∙ h) in
          split
          ∙ ap (λ x. x ∷ rest) (open_authz_id (calls i) o name s az good)
          ∙ ap (λ xs. (calls i).authz_id ∷ xs)
              (open_authzs-authz_ids_of calls (i + 1) o names t rest again)
    ]
