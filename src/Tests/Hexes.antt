-- ===== src/Tests/Hexes.antt =====
-- Hex digits read back, for the theorems that take a decoding of hex.
use Prim.Native.Char.{Char, code}
use Prim.Native.String.{String}
use mnemoca.Prelude.{
  ℕ, zero, suc, ◌+◌, ◌*◌, ◌/◌, ◌%◌, ◌-◌, ◌<◌, [], ◌∷◌, ◌≡◌, refl, arith, ap, ◌∙◌, leb,
  if◌then◌else◌, hex_digit, hex_text,
}
use mnemoca.Audit.Record.{Bytes}
use mnemoca.Api.Tokens.RoundTrip.{AreBytes}

abbrev pub nibble_of : Char → ℕ
nibble_of c = if leb (code c) 57 then code c - 48 else code c - 87

unfoldable pub unhex : String → Bytes
unhex String.[] = []
unhex (String.◌∷◌ c String.[]) = []
unhex (String.◌∷◌ c (String.◌∷◌ d s)) = (16 * nibble_of c + nibble_of d) ∷ unhex s

nibble_of-hex_digit : (d : ℕ) → d < 16 → nibble_of (hex_digit d) ≡ d
nibble_of-hex_digit zero h = refl
nibble_of-hex_digit (suc zero) h = refl
nibble_of-hex_digit (suc (suc zero)) h = refl
nibble_of-hex_digit (suc (suc (suc zero))) h = refl
nibble_of-hex_digit (suc (suc (suc (suc zero)))) h = refl
nibble_of-hex_digit (suc (suc (suc (suc (suc zero))))) h = refl
nibble_of-hex_digit (suc (suc (suc (suc (suc (suc zero)))))) h = refl
nibble_of-hex_digit (suc (suc (suc (suc (suc (suc (suc zero))))))) h = refl
nibble_of-hex_digit (suc (suc (suc (suc (suc (suc (suc (suc zero)))))))) h = refl
nibble_of-hex_digit (suc (suc (suc (suc (suc (suc (suc (suc (suc zero))))))))) h = refl
nibble_of-hex_digit (suc (suc (suc (suc (suc (suc (suc (suc (suc (suc zero)))))))))) h = refl
nibble_of-hex_digit (suc (suc (suc (suc (suc (suc (suc (suc (suc (suc (suc zero))))))))))) h = refl
nibble_of-hex_digit (suc (suc (suc (suc (suc (suc (suc (suc (suc (suc (suc (suc zero)))))))))))) h =
    refl
nibble_of-hex_digit
      (suc (suc (suc (suc (suc (suc (suc (suc (suc (suc (suc (suc (suc zero))))))))))))) h =
    refl
nibble_of-hex_digit
      (suc (suc (suc (suc (suc (suc (suc (suc (suc (suc (suc (suc (suc (suc zero)))))))))))))) h =
    refl
nibble_of-hex_digit
      (suc (suc (suc (suc (suc (suc (suc (suc (suc (suc (suc (suc (suc (suc (suc zero)))))))))))))))
      h =
    refl
nibble_of-hex_digit
      (suc
        (suc (suc (suc (suc (suc (suc (suc (suc (suc (suc (suc (suc (suc (suc (suc d))))))))))))))))
      h =
    absurd (omega (arith, h))

pub unhex-hex_text : (bs : Bytes) → AreBytes bs → unhex (hex_text bs) ≡ bs
unfolding unhex hex_text
unhex-hex_text [] h = refl
unhex-hex_text (b ∷ bs) (small, rest) =
    let high = nibble_of-hex_digit (b / 16) (omega (arith, small)) in
    let low = nibble_of-hex_digit (b % 16) (omega arith) in
    let joined : 16 * nibble_of (hex_digit (b / 16)) + nibble_of (hex_digit (b % 16)) ≡ b =
      omega (arith, high, low) in
    ap (λ n. n ∷ unhex (hex_text bs)) joined ∙ ap (λ t. b ∷ t) (unhex-hex_text bs rest)
