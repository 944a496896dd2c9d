-- ===== src/Api/Tokens.antt =====
-- internal/api/auth.go: the bearer tokens, and what a request must present to reach a handler.
pub mod RoundTrip
pub mod Access
use Prim.Native.String.{len, ◌++◌ as text_append}
use mnemoca.Prelude.{
  ℕ, ◌*◌, String, Bool, true, false, ◌&&◌, Option, none, some, List, [], ◌∷◌, Result, ok, err,
  ◌>>=◌, ◌>>◌, guard, some_or, if◌then◌else◌, ◌==◌, cut_prefix, cut, trim_space, hex_text,
  all_chars, is_hex,
}
use mnemoca.Store.Fault.{Fault, StoreError}
use mnemoca.Store.Bucket.{Bucket, get}
use mnemoca.Audit.Record.{Bytes}
use mnemoca.Api.Key.{ApiKey, is_operator, allows}
use mnemoca.Api.State.{Keys}

abbrev pub key_prefix : String
key_prefix = "mnemoca_"

abbrev pub key_id_bytes : ℕ
key_id_bytes = 8

abbrev pub key_secret_bytes : ℕ
key_secret_bytes = 32

-- SHA-256 of a text, and hex.DecodeString.
pub record Hashing : Type 0 where
  pub sha256 : String → Bytes
  pub unhex : String → Option Bytes

-- subtle.ConstantTimeCompare(a, b) == 1
unfoldable pub same_bytes : Bytes → Bytes → Bool
same_bytes [] [] = true
same_bytes [] (b ∷ bs) = false
same_bytes (a ∷ xs) [] = false
same_bytes (a ∷ xs) (b ∷ bs) = let rest = same_bytes xs bs in a == b && rest

unfoldable pub is_lower_hex : String → Bool
is_lower_hex s = all_chars is_hex s

-- both parts of the token have their length and are lower-case hex
abbrev pub well_formed : String → String → Bool
unfolding is_lower_hex
well_formed id secret =
    len id == 2 * key_id_bytes
    && len secret == 2 * key_secret_bytes
    && is_lower_hex id
    && is_lower_hex secret

abbrev pub if_formed : Option (String × String) → Option (String × String)
if_formed none = none
if_formed (some (id, secret)) = if well_formed id secret then some (id, secret) else none

abbrev pub cut_key : Option String → Option (String × String)
cut_key none = none
cut_key (some rest) = cut "_" rest

-- none is errMalformedKey
unfoldable pub parse_key : String → Option (String × String)
unfolding well_formed
parse_key token = if_formed (cut_key (cut_prefix key_prefix token))

pub data AuthError : Type 0 where
  unauthorized corrupt_record : AuthError
  in_store : StoreError → AuthError

module _ (h : Hashing) where
  unfoldable pub new_key_record : ℕ → String → String → String → String → ApiKey
  new_key_record now id secret role tenant = record {
    id = id;
    hash = hex_text (h.sha256 secret);
    role = role;
    tenant = tenant;
    created_at = now;
    bootstrap = false;
    audited = false;
    recovery = false;
  }

  abbrev pub token_of : String → String → String
  token_of id secret = text_append key_prefix (text_append id (String.◌∷◌ "_" secret))

  -- with the random bytes of the id and of the secret
  unfoldable pub mint_key : ℕ → Bytes → Bytes → String → String → String × ApiKey
  unfolding new_key_record
  mint_key now id_bytes secret_bytes role tenant =
      let id = hex_text id_bytes in
      let secret = hex_text secret_bytes in
      (token_of id secret, new_key_record now id secret role tenant)

  abbrev pub load_error : StoreError → AuthError
  load_error StoreError.not_found = unauthorized
  load_error StoreError.empty_path = in_store StoreError.empty_path
  load_error StoreError.unavailable = in_store StoreError.unavailable

  abbrev pub check_secret : String → Result StoreError ApiKey → Result AuthError ApiKey
  check_secret secret (err e) = err (load_error e)
  check_secret secret (ok key) = do
    stored ← some_or corrupt_record (h.unhex key.hash)
    guard (same_bytes (h.sha256 secret) stored) unauthorized
    ok key

  abbrev pub presented : String → Option (String × String)
  presented token = cut_key (cut_prefix key_prefix (trim_space token))

  -- `header` is the Authorization header
  unfoldable pub authenticate : Fault → String → Bucket ApiKey → Result AuthError ApiKey
  unfolding same_bytes get
  authenticate f header keys = do
    token ← some_or unauthorized (cut_prefix "Bearer " header)
    (id, secret) ← some_or unauthorized (presented token)
    check_secret secret (get f id keys)

  -- A handler of an authenticated request answers with a status.
  abbrev pub KeyHandler : Type 0
  KeyHandler = ApiKey → Keys → ℕ × Keys

  abbrev pub refusal : AuthError → ℕ
  refusal unauthorized = 401
  refusal corrupt_record = 500
  refusal (in_store e) = 500

  unfoldable pub authed : Fault → String → KeyHandler → Keys → ℕ × Keys
  unfolding authenticate
  authed f header next s = elim (authenticate f header s.keys) [
    | err e ↦ (refusal e, s)
    | ok key ↦ next key s
  ]

  unfoldable pub operator_only : KeyHandler → KeyHandler
  operator_only next key s = if is_operator key.role then next key s else (403, s)

  -- `tenant` is the tenant in the request's path
  unfoldable pub tenant_scoped : String → KeyHandler → KeyHandler
  tenant_scoped tenant next key s = if allows key tenant then next key s else (403, s)
