-- ===== src/Audit/Record.antt =====
-- internal/audit/audit.go: the audit record, and what the log takes from the libraries.
use mnemoca.Prelude.{ℕ, String, Bool, true, List, [], Option, some, length, ◌≡◌, ◌≢◌}

pub record Actor : Type 0 where
  pub kind : String
  pub id : String
  pub ip : String

pub record Object : Type 0 where
  pub kind : String
  pub id : String

abbrev pub Bytes : Type 0
Bytes = List ℕ

-- A time of 0 is Go's zero time.
pub record Record : Type 0 where
  pub seq : ℕ
  pub time : ℕ
  pub tenant : String
  pub actor : Actor
  pub action : String
  pub object : Object
  pub detail : List (String × String)
  pub prev_hash : String
  pub hash : String
  pub key_id : String
  pub sig : Bytes

-- SHA-256, hex, JSON and the signature scheme of the audit key. `sign` takes the randomness that
-- it reads, and may fail.
pub record Primitives : Type 0 where
  pub sha256 : Bytes → Bytes
  pub hex : Bytes → String
  pub unhex : String → Option Bytes
  pub marshal : Record → Bytes
  pub sign : Bytes → Bytes → Option Bytes
  pub valid : Bytes → Bytes → Bool

-- What the log relies on of them.
pub record Lawful (p : Primitives) : Type 0 where
  pub unhex-hex : (b : Bytes) → p.unhex (p.hex b) ≡ some b
  pub unhex_empty : p.unhex "" ≡ some []
  pub digest_size : (b : Bytes) → length (p.sha256 b) ≡ 32
  pub signed : (r b s : Bytes) → p.sign r b ≡ some s → p.valid b s ≡ true
  pub marshal_injective : (r s : Record) → p.marshal r ≡ p.marshal s → r ≡ s

-- Two inputs of SHA-256 with one digest.
abbrev pub Collision : Primitives → Type 0
Collision p = (x : Bytes) × (y : Bytes) × (x ≢ y) × (p.sha256 x ≡ p.sha256 y)
