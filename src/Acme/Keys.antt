-- ===== src/Acme/Keys.antt =====
-- internal/acme/jws.go: account keys, their thumbprints, and the signatures of requests.
use Prim.Native.String.{◌++◌ as text_append}
use mnemoca.Prelude.{
  ℕ, ◌+◌, ◌*◌, ◌^◌, String, Bool, ◌&&◌, Option, [], ◌∷◌, ◌++◌, Result, ok, err, ◌>>=◌, ◌>>◌, guard,
  some_or, if◌then◌else◌, ◌==◌, ltb, str_eq, length, take, drop,
}
use mnemoca.Audit.Record.{Bytes}
use mnemoca.Acme.Problem.{AcmeError, errf, malformed, bad_public_key}

pub record JwkFields : Type 0 where
  pub kty : String
  pub crv : String
  pub x : String
  pub y : String
  pub n : String
  pub e : String

-- a P-256 point with its two coordinates, an RSA modulus and exponent, an Ed25519 key
pub data PublicKey : Type 0 where
  ec : Bytes → Bytes → PublicKey
  rsa : ℕ → ℕ → PublicKey
  okp : Bytes → PublicKey

-- encoding/json, encoding/base64, the primitives of crypto, and %q of fmt.
pub record Codec : Type 0 where
  pub unjson_jwk : String → Option JwkFields
  pub unbase64 : String → Option Bytes
  pub base64 : Bytes → String
  pub quote : String → String
  pub utf8 : String → Bytes
  pub sha256 : Bytes → Bytes
  pub on_curve : Bytes → Bool
  pub ecdsa_verify : Bytes → Bytes → Bytes → ℕ → ℕ → Bool
  pub rsa_verify : ℕ → ℕ → Bytes → Bytes → Bool
  pub ed25519_verify : Bytes → Bytes → Bytes → Bool

-- new(big.Int).SetBytes
unfoldable pub big_endian : ℕ → Bytes → ℕ
big_endian n [] = n
big_endian n (b ∷ bs) = big_endian (256 * n + b) bs

unfoldable pub set_bytes : Bytes → ℕ
unfolding big_endian
set_bytes bs = big_endian 0 bs

module _ (l : Codec) where
  abbrev pub decoded : String → Result AcmeError Bytes
  decoded s = some_or bad_public_key (l.unbase64 s)

  abbrev pub parse_ec : JwkFields → Result AcmeError PublicKey
  parse_ec k = do
    guard (str_eq k.crv "P-256") bad_public_key
    x ← decoded k.x
    y ← decoded k.y
    guard (length x == 32 && length y == 32) bad_public_key
    guard (l.on_curve (4 ∷ x ++ y)) bad_public_key
    ok (ec x y)

  abbrev pub parse_rsa : JwkFields → Result AcmeError PublicKey
  parse_rsa k = do
    n ← decoded k.n
    e ← decoded k.e
    guard (ltb (set_bytes e) (2 ^ 63) && ltb 1 (set_bytes e)) bad_public_key
    ok (rsa (set_bytes n) (set_bytes e))

  abbrev pub parse_okp : JwkFields → Result AcmeError PublicKey
  parse_okp k = do
    guard (str_eq k.crv "Ed25519") bad_public_key
    x ← decoded k.x
    guard (length x == 32) bad_public_key
    ok (okp x)

  abbrev pub parse_fields : JwkFields → Result AcmeError PublicKey
  parse_fields k =
      if str_eq k.kty "EC"
      then parse_ec k
      else if str_eq k.kty "RSA"
      then parse_rsa k
      else if str_eq k.kty "OKP"
      then parse_okp k
      else err bad_public_key

  unfoldable pub parse_jwk : String → Result AcmeError PublicKey
  unfolding set_bytes
  parse_jwk raw = do k ← some_or bad_public_key (l.unjson_jwk raw); parse_fields k

  -- a member of the canonical form, with what follows it
  abbrev pub member : String → String → String → String
  member name value rest = text_append name (text_append (l.quote value) rest)

  abbrev pub canonical_jwk : JwkFields → Result AcmeError String
  canonical_jwk k =
      if str_eq k.kty "EC"
      then ok (
          member "{\"crv\":" k.crv (member ",\"kty\":\"EC\",\"x\":" k.x (member ",\"y\":" k.y "}")))
      else if str_eq k.kty "RSA"
      then ok (member "{\"e\":" k.e (member ",\"kty\":\"RSA\",\"n\":" k.n "}"))
      else if str_eq k.kty "OKP"
      then ok (member "{\"crv\":" k.crv (member ",\"kty\":\"OKP\",\"x\":" k.x "}"))
      else err bad_public_key

  unfoldable pub jwk_thumbprint : String → Result AcmeError String
  jwk_thumbprint raw = do
    k ← some_or bad_public_key (l.unjson_jwk raw)
    canon ← canonical_jwk k
    ok (l.base64 (l.sha256 (l.utf8 canon)))

  abbrev pub wrong_alg : AcmeError
  wrong_alg = errf 400 "badSignatureAlgorithm"

  abbrev pub unverified : AcmeError
  unverified = errf 401 "unauthorized"

  abbrev pub verify_es256 : PublicKey → Bytes → Bytes → Result AcmeError (Unit {0})
  verify_es256 (ec x y) input sig = do
    guard (length sig == 64) malformed
    guard (l.ecdsa_verify x y (l.sha256 input) (set_bytes (take 32 sig)) (set_bytes (drop 32 sig)))
        unverified
  verify_es256 (rsa n e) input sig = err wrong_alg
  verify_es256 (okp x) input sig = err wrong_alg

  abbrev pub verify_rs256 : PublicKey → Bytes → Bytes → Result AcmeError (Unit {0})
  verify_rs256 (rsa n e) input sig = guard (l.rsa_verify n e (l.sha256 input) sig) unverified
  verify_rs256 (ec x y) input sig = err wrong_alg
  verify_rs256 (okp x) input sig = err wrong_alg

  abbrev pub verify_eddsa : PublicKey → Bytes → Bytes → Result AcmeError (Unit {0})
  verify_eddsa (okp x) input sig = guard (l.ed25519_verify x input sig) unverified
  verify_eddsa (ec x y) input sig = err wrong_alg
  verify_eddsa (rsa n e) input sig = err wrong_alg

  unfoldable pub verify_jws_signature :
      String → PublicKey → Bytes → Bytes → Result AcmeError (Unit {0})
  unfolding set_bytes
  verify_jws_signature alg key input sig =
      if str_eq alg "ES256"
      then verify_es256 key input sig
      else if str_eq alg "RS256"
      then verify_rs256 key input sig
      else if str_eq alg "EdDSA"
      then verify_eddsa key input sig
      else err wrong_alg
