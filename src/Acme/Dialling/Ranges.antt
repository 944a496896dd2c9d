-- ===== src/Acme/Dialling/Ranges.antt =====
-- The IPv4 addresses that are blocked, by their four numbers.

use mnemoca.Prelude.{ℕ, Bool, ◌&&◌, ◌||◌, [], ◌∷◌, ◌≡◌, arith, ◌==◌, leb, ◌<◌}
use mnemoca.Audit.Record.{Bytes}
use mnemoca.Acme.Dialling.{agrees, prefix_contains, in_any, unmap, blocked_address}

-- the ranges that no public host is in
unfoldable pub is_special : ℕ → ℕ → ℕ → Bool
is_special a b c =
    a == 0
    || a == 10
    || a == 127
    || leb 224 a
    || a == 100 && leb 64 b && leb b 127
    || a == 169 && b == 254
    || a == 172 && leb 16 b && leb b 31
    || a == 192 && b == 0 && c == 0
    || a == 192 && b == 168
    || a == 198 && leb 18 b && leb b 19

-- the address in its 16 bytes, as net.ParseIP has it
abbrev pub mapped : ℕ → ℕ → ℕ → ℕ → Bytes
mapped a b c d = 0 ∷ 0 ∷ 0 ∷ 0 ∷ 0 ∷ 0 ∷ 0 ∷ 0 ∷ 0 ∷ 0 ∷ 255 ∷ 255 ∷ a ∷ b ∷ c ∷ d ∷ []

blocked_v4 :
    (a b c d : ℕ)
    → a < 256
    → b < 256
    → c < 256
    → d < 256
    → blocked_address (a ∷ b ∷ c ∷ d ∷ []) ≡ is_special a b c
unfolding blocked_address in_any prefix_contains agrees unmap is_special
blocked_v4 a b c d ha hb hc hd = ground arith

blocked_mapped :
    (a b c d : ℕ)
    → a < 256
    → b < 256
    → c < 256
    → d < 256
    → blocked_address (mapped a b c d) ≡ is_special a b c
unfolding blocked_address in_any prefix_contains agrees unmap is_special
blocked_mapped a b c d ha hb hc hd = ground arith

-- An IPv4 address, given in 4 bytes or in the 16 bytes of its IPv4-mapped form, is blocked just when its
-- numbers are in one of the special ranges.
pub blocked_address-is_special :
    (a b c d : ℕ)
    → a < 256
    → b < 256
    → c < 256
    → d < 256
    → (blocked_address (a ∷ b ∷ c ∷ d ∷ []) ≡ is_special a b c)
      × (blocked_address (mapped a b c d) ≡ is_special a b c)
blocked_address-is_special a b c d ha hb hc hd =
    (blocked_v4 a b c d ha hb hc hd, blocked_mapped a b c d ha hb hc hd)
