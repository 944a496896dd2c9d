-- ===== src/Acme/Names.antt =====
-- internal/acme/order.go: the names of a CSR against the identifiers of an order.
use mnemoca.Prelude.{
  eq_iff, arith, ◌⊎◌, ◌||◌, ◌&&◌, ◌==◌, ◌≡◌, String, Bool, true, List, [], ◌∷◌, Result, ok, ◌>>◌,
  guard, contains, length, str_eq,
}

-- the names that a CSR requests
pub record CsrNames : Type 0 where
  pub common_name : String
  pub dns_names : List String
  pub email_addresses : List String
  pub ip_addresses : List String
  pub uris : List String

pub data CsrError : Type 0 where
  other_names bad_common_name not_authorized missing_identifier : CsrError

-- every name of the first list is in the second
unfoldable pub all_in : List String → List String → Bool
all_in [] want = true
all_in (name ∷ names) want = let rest = all_in names want in contains want name && rest

-- `want` has the values of the order's identifiers.
unfoldable pub check_csr_identifiers : CsrNames → List String → Result CsrError (Unit {0})
unfolding all_in
check_csr_identifiers csr want = do
  guard (length csr.email_addresses == 0 && length csr.ip_addresses == 0 && length csr.uris == 0)
      other_names
  guard (str_eq csr.common_name "" || contains want csr.common_name) bad_common_name
  guard (all_in csr.dns_names want) not_authorized
  guard (all_in want csr.dns_names) missing_identifier

all_in-contains :
    (names want : List String) (x : String)
    → all_in names want ≡ true
    → contains names x ≡ true
    → contains want x ≡ true
unfolding all_in contains
all_in-contains [] want x h hit = absurd (ground (arith, hit))
all_in-contains (name ∷ names) want x h hit =
    ground (arith, h, hit, eq_iff name x, all_in-contains names want x)

-- A CSR that passes requests the order's identifiers, all of them and no other name of any kind,
-- and its common name, if it has one, is among them.
pub check_csr_identifiers_lem :
    (csr : CsrNames) (want : List String)
    → check_csr_identifiers csr want ≡ ok tt
    → (x : String)
    → (contains csr.dns_names x ≡ contains want x)
      × (length csr.email_addresses ≡ 0)
      × (length csr.ip_addresses ≡ 0)
      × (length csr.uris ≡ 0)
      × ((csr.common_name ≡ "") ⊎ (contains want csr.common_name ≡ true))
unfolding check_csr_identifiers
check_csr_identifiers_lem csr want h x = ground (
  arith,
  h,
  eq_iff csr.common_name "",
  all_in-contains csr.dns_names want x,
  all_in-contains want csr.dns_names x,
)
