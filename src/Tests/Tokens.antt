-- ===== src/Tests/Tokens.antt =====
-- The theorems on bearer tokens and guarded handlers, applied.
use Prim.Native.String.{len, ◌++◌ as text_append}
use mnemoca.Prelude.{
  lookup, ap, arith, false, String, [], ◌∷◌, ◌%◌, some, ok, ◌≡◌, refl, ◌⊎◌, hex_text,
}
use mnemoca.Store.Fault.{fine}
use mnemoca.Store.Bucket.{Bucket, empty}
use mnemoca.Api.Key.{ApiKey, role_operator, role_tenant}
use mnemoca.Api.State.{Keys}
use mnemoca.Api.Tokens.{
  Hashing, parse_key, mint_key, authenticate, KeyHandler, authed, operator_only, tenant_scoped,
}
use mnemoca.Api.Tokens.RoundTrip.{Lawful, parse_key-mint_key, authenticate-mint_key}
use mnemoca.Api.Tokens.Access.{Presents, IsRefused, operator_route, tenant_route}
use mnemoca.Tests.Toy.{zeros}
use mnemoca.Tests.Hexes.{unhex, unhex-hex_text}

-- a digest of one byte
abbrev hashing : Hashing
hashing = record { sha256 = λ s. len s % 256 ∷ []; unhex = λ s. some (unhex s) }

hashing-Lawful : Lawful hashing
hashing-Lawful = record {
  digest = λ s. (omega arith, tt);
  unhex-hex_text = λ bs h. ap some (unhex-hex_text bs h);
}

parse_key-mint_key_example :
    parse_key (mint_key hashing 9 (171 ∷ zeros 7) (zeros 32) "operator" "").0
    ≡ some (hex_text (171 ∷ zeros 7), hex_text (zeros 32))
parse_key-mint_key_example =
    parse_key-mint_key hashing 9 (171 ∷ zeros 7) (zeros 32) "operator" "" refl refl

abbrev tenant_key : ApiKey
tenant_key = record {
  id = "0000000000000000";
  hash = "40";
  role = "tenant";
  tenant = "acme";
  created_at = 9;
  bootstrap = false;
  audited = false;
  recovery = false;
}

abbrev keys : Bucket ApiKey
keys = record { docs = ("0000000000000000", tenant_key) ∷ []; seq = 0 }

authenticate-mint_key_example :
    authenticate hashing fine
      (text_append "Bearer " (mint_key hashing 9 (zeros 8) (zeros 32) "tenant" "acme").0)
      keys
    ≡ ok (mint_key hashing 9 (zeros 8) (zeros 32) "tenant" "acme").1
unfolding mint_key hex_text lookup
authenticate-mint_key_example =
    authenticate-mint_key hashing 9 (zeros 8) (zeros 32) "tenant" "acme" keys hashing-Lawful refl

abbrev state : Keys
state = record { keys = keys; operators = empty; log = []; file = false; now = 0 }

-- empties the bucket of keys
abbrev wipe : KeyHandler hashing
wipe key s = (204, record s { keys = empty })

abbrev header : String
header =
    "Bearer mnemoca_0000000000000000_0000000000000000000000000000000000000000000000000000000000000000"

operator_route_example :
    let answer = authed hashing fine header (operator_only hashing wipe) state in
    ((key : ApiKey) × Presents hashing header keys key
      × (key.role ≡ role_operator)
      × (answer ≡ wipe key state))
    ⊎ IsRefused hashing answer state
operator_route_example = operator_route hashing fine header wipe state

tenant_route_example :
    let answer = authed hashing fine header (tenant_scoped hashing "acme" wipe) state in
    ((key : ApiKey) × Presents hashing header keys key
      × ((key.role ≡ role_operator) ⊎ ((key.role ≡ role_tenant) × (key.tenant ≡ "acme")))
      × (answer ≡ wipe key state))
    ⊎ IsRefused hashing answer state
tenant_route_example = tenant_route hashing fine header "acme" wipe state
