-- ===== src/Tests/Dials.antt =====
-- The theorem on blocked addresses, applied.
use mnemoca.Prelude.{[], ◌∷◌, ◌≡◌, arith}
use mnemoca.Acme.Dialling.{blocked_address}
use mnemoca.Acme.Dialling.Ranges.{is_special, mapped, blocked_address-is_special}

blocked_address-is_special_example :
    (blocked_address (100 ∷ 127 ∷ 2 ∷ 3 ∷ []) ≡ is_special 100 127 2)
    × (blocked_address (mapped 100 127 2 3) ≡ is_special 100 127 2)
blocked_address-is_special_example =
    blocked_address-is_special 100 127 2 3 (omega arith) (omega arith) (omega arith) (omega arith)
