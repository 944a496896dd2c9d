-- ===== src/Ca/Profile.antt =====
-- internal/ca/profiles.go: what a profile lets a tenant issue. Durations are in nanoseconds.
pub mod Grants
use Prim.Native.Char.{Char, code}
use mnemoca.Prelude.{
  str_eq, pos, not, guard, leb, ◌&&◌, ◌==◌, ◌>>◌, ◌>>=◌, suc, zero, ◌++◌, if◌then◌else◌, [],
  some_or, ◌||◌, ◌∷◌, true, false, ℕ, String, Bool, List, Result, ok, err, Dict, lookup, ℤ, int_leb,
}
use mnemoca.Pkix.Algs.{lookup_alg}

abbrev pub chain_primary : String
chain_primary = "primary"

abbrev pub chain_pair : String
chain_pair = "pair"

abbrev pub chain_both : String
chain_both = "both"

pub record Profile : Type 0 where
  pub name : String
  pub default_validity : ℤ
  pub max_validity : ℤ
  pub server_auth : Bool
  pub client_auth : Bool
  pub ekus : List String
  pub key_usages : List String
  pub allowed_key_algs : List String
  pub hybrid : String

pub data Eku : Type 0 where
  server_auth client_auth code_signing email_protection time_stamping ocsp_signing : Eku

-- the bits of x509.KeyUsage that this program sets or must not set
pub record KeyUsage : Type 0 where
  pub digital_signature : Bool
  pub content_commitment : Bool
  pub key_encipherment : Bool
  pub data_encipherment : Bool
  pub key_agreement : Bool
  pub cert_sign : Bool
  pub crl_sign : Bool

abbrev pub no_usage : KeyUsage
no_usage = record {
  digital_signature = false;
  content_commitment = false;
  key_encipherment = false;
  data_encipherment = false;
  key_agreement = false;
  cert_sign = false;
  crl_sign = false;
}

-- `a | b`
abbrev pub usage_or : KeyUsage → KeyUsage → KeyUsage
usage_or a b = record {
  digital_signature = a.digital_signature || b.digital_signature;
  content_commitment = a.content_commitment || b.content_commitment;
  key_encipherment = a.key_encipherment || b.key_encipherment;
  data_encipherment = a.data_encipherment || b.data_encipherment;
  key_agreement = a.key_agreement || b.key_agreement;
  cert_sign = a.cert_sign || b.cert_sign;
  crl_sign = a.crl_sign || b.crl_sign;
}

abbrev pub profile_ekus : Dict Eku
profile_ekus =
    ("client_auth", Eku.client_auth)
    ∷ ("code_signing", Eku.code_signing)
    ∷ ("email_protection", Eku.email_protection)
    ∷ ("ocsp_signing", Eku.ocsp_signing)
    ∷ ("server_auth", Eku.server_auth)
    ∷ ("time_stamping", Eku.time_stamping)
    ∷ []

abbrev pub profile_key_usages : Dict KeyUsage
profile_key_usages =
    ("content_commitment", record no_usage { content_commitment = true })
    ∷ ("data_encipherment", record no_usage { data_encipherment = true })
    ∷ ("digital_signature", record no_usage { digital_signature = true })
    ∷ ("key_agreement", record no_usage { key_agreement = true })
    ∷ ("key_encipherment", record no_usage { key_encipherment = true })
    ∷ []

pub data ProfileError : Type 0 where
  unknown_eku unknown_key_usage unknown_algorithm bad_name bad_validity bad_hybrid : ProfileError

abbrev pub named_ekus : List String → Result ProfileError (List Eku)
named_ekus [] = ok []
named_ekus (name ∷ names) = do
  eku ← some_or unknown_eku (lookup name profile_ekus)
  rest ← named_ekus names
  ok (eku ∷ rest)

unfoldable pub ext_key_usages : Profile → Result ProfileError (List Eku)
ext_key_usages p = elim p.ekus [
  | [] ↦ ok (
      (if p.server_auth then Eku.server_auth ∷ [] else [])
      ++ (if p.client_auth then Eku.client_auth ∷ [] else []))
  | name ∷ names ↦ named_ekus (name ∷ names)
]

-- the loop of keyUsage, from the bits so far
unfoldable pub named_usages : KeyUsage → List String → Result ProfileError KeyUsage
named_usages out [] = ok out
named_usages out (name ∷ names) = do
  usage ← some_or unknown_key_usage (lookup name profile_key_usages)
  named_usages (usage_or out usage) names

abbrev pub usages_of : List String → Result ProfileError KeyUsage
usages_of [] = ok (record no_usage { digital_signature = true })
usages_of (name ∷ names) = named_usages no_usage (name ∷ names)

unfoldable pub key_usage : Profile → Result ProfileError KeyUsage
key_usage p = usages_of p.key_usages

abbrev pub known_algorithms : List String → Result ProfileError (Unit {0})
known_algorithms [] = ok tt
known_algorithms (alg ∷ algs) =
    some_or unknown_algorithm (lookup_alg alg) >>= λ _. known_algorithms algs

-- tenantIDRe, `^[a-z0-9][a-z0-9-]{0,62}$`
abbrev name_char : Char → Bool
name_char c = leb b'a' (code c) && leb (code c) b'z' || leb b'0' (code c) && leb (code c) b'9'

name_rest : ℕ → String → Bool
name_rest n String.[] = true
name_rest zero (String.◌∷◌ c s) = false
name_rest (suc n) (String.◌∷◌ c s) =
    let rest = name_rest n s in (name_char c || code c == b'-') && rest

unfoldable pub is_tenant_id : String → Bool
unfolding name_rest
is_tenant_id String.[] = false
is_tenant_id (String.◌∷◌ c s) = name_char c && name_rest 62 s

unfoldable pub validate : Profile → Result ProfileError (Unit {0})
unfolding ext_key_usages key_usage is_tenant_id
validate p = do
  guard (is_tenant_id p.name) bad_name
  guard (not (int_leb p.default_validity (pos 0) || int_leb p.max_validity (pos 0))) bad_validity
  guard (int_leb p.default_validity p.max_validity) bad_validity
  _ ← ext_key_usages p
  _ ← key_usage p
  known_algorithms p.allowed_key_algs
  guard
      (str_eq p.hybrid ""
        || str_eq p.hybrid chain_primary
        || str_eq p.hybrid chain_pair
        || str_eq p.hybrid chain_both)
      bad_hybrid
