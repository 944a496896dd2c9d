-- ===== src/Api/Key.antt =====
-- internal/api/auth.go: the stored form of an API key, and what a key may do.
use mnemoca.Prelude.{ℕ, String, Bool, ◌&&◌, ◌||◌, str_eq}

abbrev pub role_operator : String
role_operator = "operator"

abbrev pub role_tenant : String
role_tenant = "tenant"

pub record ApiKey : Type 0 where
  pub id : String
  pub hash : String
  pub role : String
  pub tenant : String
  pub created_at : ℕ
  pub bootstrap : Bool
  pub audited : Bool
  pub recovery : Bool

unfoldable pub is_operator : String → Bool
is_operator r = str_eq r role_operator

-- may the key act on the tenant
unfoldable pub allows : ApiKey → String → Bool
unfolding is_operator
allows k t = is_operator k.role || str_eq k.role role_tenant && str_eq k.tenant t
