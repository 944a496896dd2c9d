-- ===== src/Acme/Opening/Places.antt =====
-- Which authorization and which challenges belong to a name of an order.
use mnemoca.Prelude.{
  ℕ, ◌+◌, String, true, false, some, List, [], ◌∷◌, ok, err, ◌>>=◌, ◌≡◌, refl, ◌⊎◌, inl, inr, arith,
  ap, sym, ◌∙◌, Result-cases, cut_prefix, none, ◌++◌, Option-cases,
}
use mnemoca.Store.Fault.{Fault, fine, refused, ghost}
use mnemoca.Store.Bucket.{put}
use mnemoca.Acme.Orders.{Authz, Order, Status}
use mnemoca.Acme.Challenges.{Trials}
use mnemoca.Acme.Opening.{AuthzCall, is_wildcard, store_challenge, open_challenges}

-- A name of the list, with what the authorization at its place meets; the places start at `i`.
pub data Placed (calls : ℕ → AuthzCall) : ℕ → List String → AuthzCall → String → Type 0 where
  first :
      (i : ℕ) (name : String) (names : List String) → Placed calls i (name ∷ names) (calls i) name
  later :
      (i : ℕ) (other name : String) (names : List String) (call : AuthzCall)
      → Placed calls (i + 1) names call name
      → Placed calls i (other ∷ names) call name

-- A wildcard has the dns-01 challenge alone, another name the http-01 challenge as well.
abbrev pub HasChallenges : AuthzCall → String → List String → Type 0
HasChallenges call name ids =
    ((rest : String) × (cut_prefix "*." name ≡ some rest) × (ids ≡ call.dns_id ∷ []))
    ⊎ ((cut_prefix "*." name ≡ none) × (ids ≡ call.http_id ∷ call.dns_id ∷ []))

-- The authorization is pending, of the order and its account, for the name, and under its own id.
abbrev pub IsFresh : Order → AuthzCall → String → String → Authz → Type 0
IsFresh o call name id x =
    (id ≡ call.authz_id)
    × (x.id ≡ id)
    × (x.status ≡ Status.pending)
    × (x.order_id ≡ o.id)
    × (x.account_id ≡ o.account_id)
    × (x.identifier ≡ name)
    × (x.expires ≡ o.expires)
    × HasChallenges call name x.challenge_ids

-- the ids of the authorizations of the names
abbrev pub authz_ids_of : (ℕ → AuthzCall) → ℕ → List String → List String
authz_ids_of calls i [] = []
authz_ids_of calls i (name ∷ names) = (calls i).authz_id ∷ authz_ids_of calls (i + 1) names

store_challenge_ids :
    (f : Fault) (id authz_id typ token : String) (s : Trials) (ids : List String)
    → (store_challenge f id authz_id typ token s).0 ≡ ok ids
    → ids ≡ id ∷ []
unfolding store_challenge put
store_challenge_ids fine id authz_id typ token s ids h = ground (arith, h)
store_challenge_ids refused id authz_id typ token s ids h = absurd (ground (arith, h))
store_challenge_ids ghost id authz_id typ token s ids h = absurd (ground (arith, h))

pub open_challenges-HasChallenges :
    (c : AuthzCall) (name : String) (s : Trials) (ids : List String)
    → (open_challenges c (is_wildcard (cut_prefix "*." name)) s).0 ≡ ok ids
    → HasChallenges c name ids
unfolding open_challenges
open_challenges-HasChallenges c name s ids h = elim (Option-cases (cut_prefix "*." name)) [
  | inr (rest, wild) ↦
      let alone : (open_challenges c true s).0 ≡ ok ids =
        ap (λ o. (open_challenges c (is_wildcard o) s).0) (sym wild) ∙ h in
      inl (
        rest,
        wild,
        store_challenge_ids c.on_dns c.dns_id c.authz_id "dns-01" c.dns_token s ids alone,
      )
  | inl plain ↦
      let both : (open_challenges c false s).0 ≡ ok ids =
        ap (λ o. (open_challenges c (is_wildcard o) s).0) (sym plain) ∙ h in
      let http = store_challenge c.on_http c.http_id c.authz_id "http-01" c.http_token s in
      let dns = store_challenge c.on_dns c.dns_id c.authz_id "dns-01" c.dns_token http.1 in
      elim (Result-cases http.0) [
        | inl (e, bad) ↦
            let left : (open_challenges c false s).0 ≡ err e = rw (open_challenges, bad) refl in
            absurd (ground (arith, left, both))
        | inr (xs, e₁) ↦
            let left : (open_challenges c false s).0 ≡ (dns.0 >>= λ ys. ok (xs ++ ys)) =
              rw (open_challenges, e₁) refl in
            elim (Result-cases dns.0) [
              | inl (e, bad) ↦
                  let wrong : ok ids ≡ err e =
                    sym both ∙ left ∙ ap (λ r. r >>= λ ys. ok (xs ++ ys)) bad in
                  absurd (ground (arith, wrong))
              | inr (ys, e₂) ↦
                  let all : ok ids ≡ ok (xs ++ ys) =
                    sym both ∙ left ∙ ap (λ r. r >>= λ zs. ok (xs ++ zs)) e₂ in
                  let one =
                    store_challenge_ids c.on_http c.http_id c.authz_id "http-01" c.http_token s xs
                      e₁ in
                  let two =
                    store_challenge_ids c.on_dns c.dns_id c.authz_id "dns-01" c.dns_token http.1 ys
                      e₂ in
                  let same : ids ≡ xs ++ ys = ground (arith, all) in
                  inr (plain, same ∙ ap (λ zs. zs ++ ys) one ∙ ap (λ zs. c.http_id ∷ zs) two)
            ]
      ]
]
