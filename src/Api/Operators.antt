-- ===== src/Api/Operators.antt =====
-- internal/api/auth.go: the document that counts the live operator keys, and the functions that
-- its atomic updates apply to it. Times are in seconds.
pub mod Laws
use mnemoca.Prelude.{
  ℕ, ◌-◌, String, Bool, true, false, ◌&&◌, ◌||◌, not, Option, none, some, List, [], ◌∷◌, ◌++◌, ltb,
  leb, ◌==◌, length, contains, delete_all, Dict, lookup, insert, remove, Result, ok, err,
  if◌then◌else◌,
}

-- `revoking` holds the ids under revocation, with the time of the claim
pub record OperatorSet : Type 0 where
  pub ids : List String
  pub revoking : Dict ℕ

-- the zero value that an update of an absent document starts from
abbrev pub zero_set : OperatorSet
zero_set = record { ids = []; revoking = [] }

pub data OperatorError : Type 0 where
  last_operator revoke_in_progress : OperatorError

-- 5 minutes
abbrev pub revoke_claim_ttl : ℕ
revoke_claim_ttl = 300

-- `time.Since(t) < revokeClaimTTL`; a claim from the future counts as fresh
abbrev pub is_fresh : ℕ → ℕ → Bool
is_fresh now t = ltb (now - t) revoke_claim_ttl

unfoldable pub has : OperatorSet → String → Bool
has o id = contains o.ids id

-- the callback of addOperator and of abortRevoke
unfoldable pub add_operator : String → OperatorSet → OperatorSet
unfolding has
add_operator id o = record {
  ids = if has o id then o.ids else o.ids ++ id ∷ [];
  revoking = remove id o.revoking;
}

abbrev pub claimed : ℕ → Option ℕ → Bool
claimed now none = false
claimed now (some t) = is_fresh now t

-- the guard of beginRevoke: `len(ids) <= 1 && has(id) || len(ids) == 0`
abbrev is_last : String → OperatorSet → Bool
is_last id o = leb (length o.ids) 1 && contains o.ids id || length o.ids == 0

-- the callback of beginRevoke
unfoldable pub begin_revoke : ℕ → String → OperatorSet → Result OperatorError OperatorSet
begin_revoke now id o =
    if claimed now (lookup id o.revoking)
    then err revoke_in_progress
    else if is_last id o
    then err last_operator
    else ok (record { ids = delete_all o.ids id; revoking = insert id now o.revoking })

-- the callback of finishRevoke
unfoldable pub finish_revoke : String → OperatorSet → OperatorSet
finish_revoke id o = record { ids = delete_all o.ids id; revoking = remove id o.revoking }

-- reconcileOperators drops the claims that have expired
unfoldable pub live_claims : ℕ → Dict ℕ → Dict ℕ
live_claims now [] = []
live_claims now ((id, t) ∷ rest) =
    let kept = live_claims now rest in
    if leb revoke_claim_ttl (now - t) then kept else (id, t) ∷ kept
