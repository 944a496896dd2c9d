-- ===== src/Api/Revocation/Updates.antt =====
-- The updates of the operator set, as the invariant sees them; the phases that claim nothing.
use mnemoca.Prelude.{
  ◌∙◌, Dict, ℕ, String, ◌≡◌, refl, ap, sym, ◌⊎◌, inl, inr, false, Option, lookup, Result, ok, is_ok,
}
use mathlib.Core.Path.{subst₃}
use mnemoca.Store.Fault.{Fault}
use mnemoca.Api.Key.{ApiKey}
use mnemoca.Api.Operators.{OperatorSet, OperatorError}
use mnemoca.Store.Bucket.Laws.{store_out_rejected, update_create, store_out_cases}
use mnemoca.Api.State.{or_zero, operator_meta_key, Keys, operator_set, update_operators}
use mnemoca.Api.Revocation.{rejected, err, Phase, idle, cleaning, recording, done}
use mnemoca.Api.Revocation.Phases.{holds, adds, creates, stores, mentions, targets, IsQuiet}
use mnemoca.Api.Revocation.Invariant.{Inv}

abbrev pub IsSafe : Keys → (ℕ → Phase) → Type 0
IsSafe s pool = Inv s.keys.docs (operator_set s) s.now pool

pub done-IsQuiet : (n : ℕ) → IsQuiet (done n)
unfolding holds adds creates stores mentions targets
done-IsQuiet n = record {
  holds_none = λ id. refl;
  adds_none = λ id. refl;
  creates_none = λ id. refl;
  stores_none = λ id. refl;
  names_none = λ id. refl;
  sees_none = λ id op. refl;
}

pub idle-IsQuiet : IsQuiet idle
unfolding holds adds creates stores mentions targets
idle-IsQuiet = record {
  holds_none = λ id. refl;
  adds_none = λ id. refl;
  creates_none = λ id. refl;
  stores_none = λ id. refl;
  names_none = λ id. refl;
  sees_none = λ id op. refl;
}

pub cleaning-IsQuiet : (j : String) → IsQuiet (cleaning j)
unfolding holds adds creates stores mentions targets
cleaning-IsQuiet j = record {
  holds_none = λ id. refl;
  adds_none = λ id. refl;
  creates_none = λ id. refl;
  stores_none = λ id. refl;
  names_none = λ id. refl;
  sees_none = λ id op. refl;
}

pub recording-IsQuiet : (k : ApiKey) → IsQuiet (recording k)
unfolding holds adds creates stores mentions targets
recording-IsQuiet k = record {
  holds_none = λ id. refl;
  adds_none = λ id. refl;
  creates_none = λ id. refl;
  stores_none = λ id. refl;
  names_none = λ id. refl;
  sees_none = λ id op. refl;
}

-- An update of the set leaves it as it was and fails, or commits what the callback returned.
pub update_operators_cases :
    (f : Fault) (fn : OperatorSet → Result OperatorError OperatorSet) (s : Keys)
    → let (r, s') = update_operators f fn s in
      ((operator_set s' ≡ operator_set s) × (is_ok r ≡ false))
      ⊎ ((o : OperatorSet) × (fn (operator_set s) ≡ ok o) × (operator_set s' ≡ o))
unfolding update_operators operator_set
update_operators_cases f fn s =
    let pick = λ (o : Option OperatorSet). fn (or_zero o) in
    rw (update_create f operator_meta_key pick s.operators)
      (elim (store_out_cases f operator_meta_key s.operators
        (pick (lookup operator_meta_key s.operators.docs))) [
          | inl (same, failed) ↦
              inl (ap (λ b. or_zero (lookup operator_meta_key b.docs)) same, failed)
          | inr (o, e, now) ↦ inr (o, e, ap or_zero now)
        ])

pub update_operators_rest :
    (f : Fault) (fn : OperatorSet → Result OperatorError OperatorSet) (s : Keys)
    → let (r, s') = update_operators f fn s in (s'.keys ≡ s.keys) × (s'.now ≡ s.now)
unfolding update_operators
update_operators_rest f fn s = (refl, refl)

-- The invariant at a state with these keys, this set and this time.
pub moved :
    {keys : Dict ApiKey} {o : OperatorSet} {now : ℕ} {pool : ℕ → Phase} (s : Keys)
    → s.keys.docs ≡ keys
    → operator_set s ≡ o
    → s.now ≡ now
    → Inv keys o now pool
    → IsSafe s pool
moved {pool} s same_keys same_set same_now =
    subst₃ (λ keys o now. Inv keys o now pool) (sym same_keys) (sym same_set) (sym same_now)

pub update_operators_rejected :
    (f : Fault) (fn : OperatorSet → Result OperatorError OperatorSet) (s : Keys) {e : OperatorError}
    → (update_operators f fn s).0 ≡ err (rejected e)
    → (update_operators f fn s).1 ≡ s
unfolding update_operators
update_operators_rejected f fn s h =
    let pick = λ (o : Option OperatorSet). fn (or_zero o) in
    let eq = update_create f operator_meta_key pick s.operators in
    ap (λ b. record s { operators = b })
      (ap (λ u. u.1) eq
        ∙ store_out_rejected f operator_meta_key s.operators _ (sym (ap (λ u. u.0) eq) ∙ h))

pub update_operators_log :
    (f : Fault) (fn : OperatorSet → Result OperatorError OperatorSet) (s : Keys)
    → (update_operators f fn s).1.log ≡ s.log
unfolding update_operators
update_operators_log f fn s = refl
