-- ===== src/Acme/Dialling.antt =====
-- internal/acme/ssrf.go: which addresses the HTTP challenge may connect to, and which redirects it may
-- follow.
pub mod Ranges
use Prim.Native.Nat.{◌/◌, ◌%◌, ◌-◌}
use mnemoca.Prelude.{
  ℕ, ◌^◌, String, Bool, true, false, ◌&&◌, ◌||◌, not, Option, none, some, List, [], ◌∷◌, Result, ok,
  err, ◌>>=◌, ◌>>◌, guard, some_or, if◌then◌else◌, ◌==◌, leb, str_eq, length, drop,
}
use mnemoca.Audit.Record.{Bytes}

-- netip.Addr, by its bytes
pub data Addr : Type 0 where
  v4 v6 : Bytes → Addr

-- netip.Prefix.Contains on the bytes of one family: the first `bits` bits agree
unfoldable pub agrees : ℕ → Bytes → Bytes → Bool
agrees bits [] xs = true
agrees bits (p ∷ ps) [] = false
agrees bits (p ∷ ps) (x ∷ xs) =
    let rest = agrees (bits - 8) ps xs in
    if leb 8 bits then x == p && rest else x / 2 ^ (8 - bits) == p / 2 ^ (8 - bits)

-- A prefix has the bytes that its bits reach into.
pub data Prefix : Type 0 where
  p4 p6 : Bytes → ℕ → Prefix

unfoldable pub prefix_contains : Addr → Prefix → Bool
unfolding agrees
prefix_contains (v4 xs) (p4 ps bits) = agrees bits ps xs
prefix_contains (v4 xs) (p6 ps bits) = false
prefix_contains (v6 xs) (p4 ps bits) = false
prefix_contains (v6 xs) (p6 ps bits) = agrees bits ps xs

unfoldable pub in_any : List Prefix → Addr → Bool
unfolding prefix_contains
in_any [] a = false
in_any (p ∷ ps) a = prefix_contains a p || in_any ps a

abbrev pub one : Bytes
one = 0 ∷ 0 ∷ 0 ∷ 0 ∷ 0 ∷ 0 ∷ 0 ∷ 0 ∷ 0 ∷ 0 ∷ 0 ∷ 0 ∷ 0 ∷ 0 ∷ 0 ∷ 1 ∷ []

abbrev pub unspecified : Bytes
unspecified = 0 ∷ 0 ∷ 0 ∷ 0 ∷ 0 ∷ 0 ∷ 0 ∷ 0 ∷ 0 ∷ 0 ∷ 0 ∷ 0 ∷ 0 ∷ 0 ∷ 0 ∷ 0 ∷ []

abbrev pub blocked_prefixes : List Prefix
blocked_prefixes =
    p4 (0 ∷ []) 8
    ∷ p4 (10 ∷ []) 8
    ∷ p4 (100 ∷ 64 ∷ []) 10
    ∷ p4 (127 ∷ []) 8
    ∷ p4 (169 ∷ 254 ∷ []) 16
    ∷ p4 (172 ∷ 16 ∷ []) 12
    ∷ p4 (192 ∷ 0 ∷ 0 ∷ []) 24
    ∷ p4 (192 ∷ 168 ∷ []) 16
    ∷ p4 (198 ∷ 18 ∷ []) 15
    ∷ p4 (224 ∷ []) 3
    ∷ p6 unspecified 128
    ∷ p6 one 128
    ∷ p6 (252 ∷ []) 7
    ∷ p6 (254 ∷ 128 ∷ []) 10
    ∷ p6 (255 ∷ []) 8
    ∷ p6 (253 ∷ 0 ∷ 14 ∷ 194 ∷ 0 ∷ 0 ∷ 0 ∷ 0 ∷ 0 ∷ 0 ∷ 0 ∷ 0 ∷ 0 ∷ 0 ∷ 2 ∷ 84 ∷ []) 128
    ∷ p6 (0 ∷ 100 ∷ 255 ∷ 155 ∷ 0 ∷ 0 ∷ 0 ∷ 0 ∷ 0 ∷ 0 ∷ 0 ∷ 0 ∷ []) 96
    ∷ p6 (0 ∷ 100 ∷ 255 ∷ 155 ∷ 0 ∷ 1 ∷ []) 48
    ∷ p6 (32 ∷ 2 ∷ []) 16
    ∷ p6 (32 ∷ 1 ∷ 0 ∷ 0 ∷ []) 32
    ∷ []

-- The ranges of IsLoopback, IsPrivate, IsLinkLocalUnicast, IsMulticast, with which the other two
-- multicast tests are covered, and IsUnspecified.
abbrev pub known_prefixes : List Prefix
known_prefixes =
    p4 (127 ∷ []) 8
    ∷ p6 one 128
    ∷ p4 (10 ∷ []) 8
    ∷ p4 (172 ∷ 16 ∷ []) 12
    ∷ p4 (192 ∷ 168 ∷ []) 16
    ∷ p6 (252 ∷ []) 7
    ∷ p4 (169 ∷ 254 ∷ []) 16
    ∷ p6 (254 ∷ 128 ∷ []) 10
    ∷ p4 (224 ∷ []) 4
    ∷ p6 (255 ∷ []) 8
    ∷ p4 (0 ∷ 0 ∷ 0 ∷ 0 ∷ []) 32
    ∷ p6 unspecified 128
    ∷ []

-- netip.AddrFromSlice
abbrev pub addr_from_slice : Bytes → Option Addr
addr_from_slice ip =
    if length ip == 4 then some (v4 ip) else if length ip == 16 then some (v6 ip) else none

-- netip.Addr.Unmap: an IPv4-mapped address is the IPv4 one
unfoldable pub unmap : Addr → Addr
unfolding agrees
unmap (v4 xs) = v4 xs
unmap (v6 xs) =
    if agrees 96 (0 ∷ 0 ∷ 0 ∷ 0 ∷ 0 ∷ 0 ∷ 0 ∷ 0 ∷ 0 ∷ 0 ∷ 255 ∷ 255 ∷ []) xs
    then v4 (drop 12 xs)
    else v6 xs

abbrev pub blocked_addr : Option Addr → Bool
unfolding in_any unmap
blocked_addr none = true
blocked_addr (some a) = in_any known_prefixes (unmap a) || in_any blocked_prefixes (unmap a)

unfoldable pub blocked_address : Bytes → Bool
unfolding blocked_addr
blocked_address ip = blocked_addr (addr_from_slice ip)

-- net.SplitHostPort and net.ParseIP, which is empty for what is no address.
pub record Hosts : Type 0 where
  pub split_host_port : String → Option String
  pub parse_ip : String → Bytes

pub data Refusal : Type 0 where
  no_host not_public : Refusal

unfoldable pub safe_dial_control : Hosts → String → Result Refusal (Unit {0})
unfolding blocked_address
safe_dial_control h address = do
  host ← some_or no_host (h.split_host_port address)
  guard (not (blocked_address (h.parse_ip host))) not_public

abbrev pub max_challenge_redirects : ℕ
max_challenge_redirects = 5

-- May the client follow a redirect to a scheme and a port, after `via` requests?
unfoldable pub challenge_redirect_policy : String → String → ℕ → Bool
challenge_redirect_policy scheme port via =
    not (leb max_challenge_redirects via)
    && (str_eq scheme "http" || str_eq scheme "https")
    && (str_eq port "" || str_eq port "80" || str_eq port "443")
