-- ===== src/Api/Revocation/Phases.antt =====
-- What a handler holds, is about to add, is creating, and names, at each of its phases.
use mnemoca.Prelude.{refl, inl, inr, ◌⊎◌, String, ◌≡◌, Bool, true, false, ◌&&◌, not, arith, str_eq}
use mnemoca.Api.Key.{is_operator}
use mnemoca.Api.Revocation.{
  Phase, idle, loading, claiming, auditing, deleting, reporting, checking, finishing, restoring,
  clearing, storing, counting,
}

-- The claim on an operator key, from the update that took it off the list to the one that ends
-- the revocation.
unfoldable pub holds : Phase → String → Bool
holds (auditing j k) id = is_operator k.role && str_eq j id
holds (deleting j k) id = is_operator k.role && str_eq j id
holds (reporting j k) id = is_operator k.role && str_eq j id
holds (checking j k) id = is_operator k.role && str_eq j id
holds (finishing j k) id = is_operator k.role && str_eq j id
holds (restoring j) id = str_eq j id
holds (clearing j) id = str_eq j id
holds _ id = false

-- The next step puts the id on the list.
unfoldable pub adds : Phase → String → Bool
adds (restoring j) id = str_eq j id
adds (counting k) id = str_eq k.id id
adds _ id = false

-- The id is that of a key that is being created.
unfoldable pub creates : Phase → String → Bool
creates (storing k) id = str_eq k.id id
creates (counting k) id = str_eq k.id id
creates _ id = false

-- The key is about to be written.
unfoldable pub stores : Phase → String → Bool
stores (storing k) id = str_eq k.id id
stores _ id = false

-- The handler may still read or change something about the id.
unfoldable pub mentions : Phase → String → Bool
mentions (loading j) id = str_eq j id
mentions (claiming j k) id = str_eq j id
mentions (auditing j k) id = str_eq j id
mentions (deleting j k) id = str_eq j id
mentions (reporting j k) id = str_eq j id
mentions (checking j k) id = str_eq j id
mentions (finishing j k) id = str_eq j id
mentions (restoring j) id = str_eq j id
mentions (clearing j) id = str_eq j id
mentions (storing k) id = str_eq k.id id
mentions (counting k) id = str_eq k.id id
mentions _ id = false

abbrev same : Bool → Bool → Bool
same true b = b
same false b = not b

-- The handler has seen the key at the id, with an operator's role or not.
unfoldable pub targets : Phase → String → Bool → Bool
targets (claiming j k) id op = str_eq j id && same (is_operator k.role) op
targets (auditing j k) id op = str_eq j id && same (is_operator k.role) op
targets (deleting j k) id op = str_eq j id && same (is_operator k.role) op
targets (reporting j k) id op = str_eq j id && same (is_operator k.role) op
targets (checking j k) id op = str_eq j id && same (is_operator k.role) op
targets _ id op = false

-- One phase claims, adds, creates and names no more than another.
pub record Within (p q : Phase) : Type 0 where
  pub less_held : (id : String) → holds p id ≡ true → holds q id ≡ true
  pub less_added : (id : String) → adds p id ≡ true → adds q id ≡ true
  pub less_created : (id : String) → creates p id ≡ true → creates q id ≡ true
  pub less_stored : (id : String) → stores p id ≡ true → stores q id ≡ true
  pub less_named : (id : String) → mentions p id ≡ true → mentions q id ≡ true
  pub less_seen : (id : String) (op : Bool) → targets p id op ≡ true → targets q id op ≡ true

pub adds_owner :
    (p : Phase) (id : String)
    → adds p id ≡ true
    → (holds p id ≡ true) ⊎ ((creates p id ≡ true) × (stores p id ≡ false))
unfolding adds holds creates stores
adds_owner (restoring j) id h = inl h
adds_owner (counting k) id h = inr (h, refl)
adds_owner _ id h = cc

pub holds_named : (p : Phase) (id : String) → holds p id ≡ true → mentions p id ≡ true
unfolding holds mentions
holds_named idle id h = cc
holds_named _ id h = ground arith

pub creates_named : (p : Phase) (id : String) → creates p id ≡ true → mentions p id ≡ true
unfolding creates mentions
creates_named (storing k) id h = h
creates_named (counting k) id h = h
creates_named _ id h = cc

pub creates_unheld : (p : Phase) (id : String) → creates p id ≡ true → holds p id ≡ false
unfolding creates holds
creates_unheld (storing k) id h = refl
creates_unheld (counting k) id h = refl
creates_unheld _ id h = cc

pub stores_created : (p : Phase) (id : String) → stores p id ≡ true → creates p id ≡ true
unfolding stores creates
stores_created (storing k) id h = h
stores_created _ id h = cc

pub targets_named :
    (p : Phase) (id : String) (op : Bool) → targets p id op ≡ true → mentions p id ≡ true
unfolding targets mentions
targets_named idle id op h = cc
targets_named _ id op h = ground arith

pub adds_named : (p : Phase) (id : String) → adds p id ≡ true → mentions p id ≡ true
unfolding adds mentions
adds_named (restoring j) id h = h
adds_named (counting k) id h = h
adds_named _ id h = cc

-- The phase claims, adds, creates and names nothing.
pub record IsQuiet (p : Phase) : Type 0 where
  pub holds_none : (id : String) → holds p id ≡ false
  pub adds_none : (id : String) → adds p id ≡ false
  pub creates_none : (id : String) → creates p id ≡ false
  pub stores_none : (id : String) → stores p id ≡ false
  pub names_none : (id : String) → mentions p id ≡ false
  pub sees_none : (id : String) (op : Bool) → targets p id op ≡ false

pub IsQuiet-Within : {p : Phase} (q : Phase) → IsQuiet p → Within p q
IsQuiet-Within q h = record {
  less_held = λ id e. cc (h.holds_none id);
  less_added = λ id e. cc (h.adds_none id);
  less_created = λ id e. cc (h.creates_none id);
  less_stored = λ id e. cc (h.stores_none id);
  less_named = λ id e. cc (h.names_none id);
  less_seen = λ id op e. cc (h.sees_none id op);
}
