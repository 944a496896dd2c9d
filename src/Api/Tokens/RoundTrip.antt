-- ===== src/Api/Tokens/RoundTrip.antt =====
-- A minted token is read back, and authenticates while its record is stored.
use Prim.Native.Char.{Char, code}
use Prim.Native.String.{◌++◌ as text_append}
use mnemoca.Prelude.{
  ℕ, String, Bool, true, false, ◌&&◌, some, [], ◌∷◌, ok, ◌≡◌, refl, arith, ap, ◌∙◌, length, leb,
  lookup, ◌<◌, cut_prefix, hex_text, all_chars, is_hex, is_space, cut_prefix-append, cut-append,
  trim_space_same, all_chars-append, all_chars_weaken, all_chars-hex_text, len-hex_text,
}
use mnemoca.Store.Fault.{fine}
use mnemoca.Store.Bucket.{Bucket}
use mnemoca.Audit.Record.{Bytes}
use mnemoca.Api.Key.{ApiKey}
use mnemoca.Api.Tokens.{
  Hashing, same_bytes, is_lower_hex, cut_key, if_formed, key_prefix, parse_key, new_key_record,
  token_of, mint_key, presented, authenticate,
}

-- the characters of a token
is_token_char : Char → Bool
is_token_char c = leb 48 (code c) && leb (code c) 122

is_token_char_solid : (c : Char) → is_token_char c ≡ true → is_space c ≡ false
unfolding is_token_char
is_token_char_solid c h = ground (arith, h)

is_hex_token : (c : Char) → is_hex c ≡ true → is_token_char c ≡ true
unfolding is_token_char
is_hex_token c h = ground (arith, h)

cut_key_token :
    (id secret : String)
    → all_chars is_hex id ≡ true
    → cut_key
        (cut_prefix key_prefix (text_append key_prefix (text_append id (String.◌∷◌ "_" secret))))
      ≡ some (id, secret)
cut_key_token id secret good =
    ap cut_key (cut_prefix-append key_prefix (text_append id (String.◌∷◌ "_" secret)))
    ∙ cut-append "_" is_hex id secret refl good

token_of-all_chars :
    (h : Hashing) (id secret : String)
    → all_chars is_hex id ≡ true
    → all_chars is_hex secret ≡ true
    → all_chars is_token_char (token_of h id secret) ≡ true
unfolding all_chars is_token_char
token_of-all_chars h id secret good_id good_secret =
    all_chars-append is_token_char key_prefix (text_append id (String.◌∷◌ "_" secret)) refl (
      all_chars-append is_token_char id (String.◌∷◌ "_" secret)
        (all_chars_weaken is_hex is_token_char id is_hex_token good_id)
        (all_chars_weaken is_hex is_token_char secret is_hex_token good_secret))

same_bytes_refl : (b : Bytes) → same_bytes b b ≡ true
unfolding same_bytes
same_bytes_refl [] = refl
same_bytes_refl (x ∷ xs) = ground (arith, same_bytes_refl xs)

-- The token that mintKey returns parses, to the id and the secret that it was made of.
pub parse_key-mint_key :
    (h : Hashing) (now : ℕ) (id secret : Bytes) (role tenant : String)
    → length id ≡ 8
    → length secret ≡ 32
    → parse_key (mint_key h now id secret role tenant).0 ≡ some (hex_text id, hex_text secret)
unfolding parse_key mint_key is_lower_hex
parse_key-mint_key h now id secret role tenant short long =
    ap if_formed (cut_key_token (hex_text id) (hex_text secret) (all_chars-hex_text id))
    ∙ ground (
      arith,
      all_chars-hex_text id,
      all_chars-hex_text secret,
      len-hex_text id,
      len-hex_text secret,
      short,
      long,
    )

abbrev pub AreBytes : Bytes → Type 0
AreBytes [] = Unit
AreBytes (b ∷ bs) = (b < 256) × AreBytes bs

-- A digest is of bytes, and hex.DecodeString reads back what hex.EncodeToString has written of bytes.
pub record Lawful (h : Hashing) : Type 0 where
  pub digest : (s : String) → AreBytes (h.sha256 s)
  pub unhex-hex_text : (bs : Bytes) → AreBytes bs → h.unhex (hex_text bs) ≡ some bs

-- A minted token authenticates, as a bearer token, as the key whose record mintKey returned with it,
-- while that record is stored under its id.
pub authenticate-mint_key :
    (h : Hashing) (now : ℕ) (id secret : Bytes) (role tenant : String) (keys : Bucket ApiKey)
    → Lawful h
    → let (token, key) = mint_key h now id secret role tenant in
      lookup key.id keys.docs ≡ some key
      → authenticate h fine (text_append "Bearer " token) keys ≡ ok key
unfolding mint_key new_key_record authenticate
authenticate-mint_key h now id secret role tenant keys lawful stored =
    let id_text = hex_text id in
    let secret_text = hex_text secret in
    let token = token_of h id_text secret_text in
    let sum = h.sha256 secret_text in
    let read = lawful.unhex-hex_text sum (lawful.digest secret_text) in
    let bearer = cut_prefix-append "Bearer " token in
    let parts : presented h token ≡ some (id_text, secret_text) =
      ap (λ t. cut_key (cut_prefix key_prefix t))
        (trim_space_same is_token_char is_token_char_solid token (
          token_of-all_chars h id_text secret_text (all_chars-hex_text id)
            (all_chars-hex_text secret)))
      ∙ cut_key_token id_text secret_text (all_chars-hex_text id) in
    ground (arith, bearer, parts, read, stored, same_bytes_refl (h.sha256 secret_text))
