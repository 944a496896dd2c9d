-- ===== src/Audit/Keys.antt =====
-- internal/audit/storelog.go: the keys of the stored records, in whose order the store lists them.
use Prim.Native.Char.{Char, code}
use Prim.Native.String.{compare}
use Prim.Native.String.compare
use Prim.Native.Nat.{Ordering}
use native.Mathlib.Nat.{div-lt_iff_lt-mul, le-div_iff_mul-le, div-mul-le_self, mod-add-div, mod-lt}
use mnemoca.Prelude.{
  ◌⊎◌, ℕ, zero, suc, ◌+◌, ◌*◌, ◌/◌, ◌%◌, ◌^◌, ◌<◌, ◌≤◌, String, ◌≡◌, refl, arith, inl, inr,
  Bool-cases, ltb, ◌∙◌,
}

abbrev pub digit : ℕ → Char
digit zero = "0"
digit (suc zero) = "1"
digit (suc (suc zero)) = "2"
digit (suc (suc (suc zero))) = "3"
digit (suc (suc (suc (suc zero)))) = "4"
digit (suc (suc (suc (suc (suc zero))))) = "5"
digit (suc (suc (suc (suc (suc (suc zero)))))) = "6"
digit (suc (suc (suc (suc (suc (suc (suc zero))))))) = "7"
digit (suc (suc (suc (suc (suc (suc (suc (suc zero)))))))) = "8"
digit (suc (suc (suc (suc (suc (suc (suc (suc (suc d))))))))) = "9"

-- `n` in `k` decimal digits, the most significant first
unfoldable pub padded : ℕ → ℕ → String
padded zero n = String.[]
padded (suc k) n = String.◌∷◌ (digit (n / 10 ^ k)) (padded k (n % 10 ^ k))

-- fmt.Sprintf("%020d", seq): a uint64 has at most 20 digits
unfoldable pub seq_key : ℕ → String
unfolding padded
seq_key seq = padded 20 seq

code-digit : (d : ℕ) → d < 10 → code (digit d) ≡ 48 + d
code-digit zero h = refl
code-digit (suc zero) h = refl
code-digit (suc (suc zero)) h = refl
code-digit (suc (suc (suc zero))) h = refl
code-digit (suc (suc (suc (suc zero)))) h = refl
code-digit (suc (suc (suc (suc (suc zero))))) h = refl
code-digit (suc (suc (suc (suc (suc (suc zero)))))) h = refl
code-digit (suc (suc (suc (suc (suc (suc (suc zero))))))) h = refl
code-digit (suc (suc (suc (suc (suc (suc (suc (suc zero)))))))) h = refl
code-digit (suc (suc (suc (suc (suc (suc (suc (suc (suc zero))))))))) h = refl
code-digit (suc (suc (suc (suc (suc (suc (suc (suc (suc (suc d)))))))))) h =
    absurd (omega (arith, h))

pow_step : (k : ℕ) → 10 ^ suc k ≡ 10 * 10 ^ k
pow_step k = omega arith

pow_pos : (k : ℕ) → 0 < 10 ^ k
pow_pos zero = omega arith
pow_pos (suc k) = omega (arith, pow_pos k)

-- `a` and `b` differ in the leading digit, or in the rest of the digits
split_lt : (p a b : ℕ) → 0 < p → a < b → (a / p < b / p) ⊎ ((a / p ≡ b / p) × (a % p < b % p))
split_lt p a b pos h =
    let below : a / p ≤ b / p =
      (le-div_iff_mul-le {k = p} {x = a / p} {y = b} pos).1
        (omega (arith, h, div-mul-le_self a p)) in
    elim (Bool-cases (ltb (a / p) (b / p))) [
      | inl less ↦ inl (ground (arith, less))
      | inr same ↦
          let heads : a / p ≡ b / p = ground (arith, same, below) in
          let left : a % p + p * (b / p) ≡ a = rw (← heads) (mod-add-div a p) in
          inr (heads, omega (arith, left, mod-add-div b p, h))
    ]

-- The keys of later records come later.
compare-padded :
    (k a b : ℕ)
    → a < b
    → b < 10 ^ k
    → (compare (padded k a) (padded k b) ≡ Ordering.lt)
      × (compare (padded k b) (padded k a) ≡ Ordering.gt)
unfolding padded
compare-padded zero a b less small = absurd (omega arith)
compare-padded (suc k) a b less small =
    let p = 10 ^ k in
    let tens : b / p < 10 =
      (div-lt_iff_lt-mul {k = p} {x = b} {y = 10} (pow_pos k)).1
        (omega (arith, small, pow_step k)) in
    let step₁ =
      compare.cons-cons (digit (a / p)) (digit (b / p)) (padded k (a % p)) (padded k (b % p)) in
    let step₂ =
      compare.cons-cons (digit (b / p)) (digit (a / p)) (padded k (b % p)) (padded k (a % p)) in
    elim (split_lt p a b (pow_pos k) less) [
      | inl heads ↦
          let code₁ = code-digit (a / p) (omega (arith, heads, tens)) in
          let code₂ = code-digit (b / p) tens in
          (step₁ ∙ ground (arith, heads, code₁, code₂), step₂ ∙ ground (arith, heads, code₁, code₂))
      | inr (heads, rests) ↦
          let (lower, upper) = compare-padded k (a % p) (b % p) rests (mod-lt b (pow_pos k)) in
          (step₁ ∙ ground (arith, heads, lower), step₂ ∙ ground (arith, heads, upper))
    ]

pub compare-seq_key :
    (i j : ℕ)
    → i < j
    → j < 2 ^ 64
    → (compare (seq_key i) (seq_key j) ≡ Ordering.lt)
      × (compare (seq_key j) (seq_key i) ≡ Ordering.gt)
unfolding seq_key
compare-seq_key i j less small = compare-padded 20 i j less (omega (arith, small))
