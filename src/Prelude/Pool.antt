-- ===== src/Prelude/Pool.antt =====
-- A pool of processes, indexed by number.
use Prim.Native.Nat.{ℕ}
use mathlib.Core.Logic.{ite}
use native.Mathlib.Decide.{ℕ_discrete}

module _ {ℓ} {A : Type ℓ} where
  abbrev pub set_at : (ℕ → A) → ℕ → A → ℕ → A
  set_at f i a j = ite (ℕ_discrete i j) a (f j)
