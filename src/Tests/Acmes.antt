-- ===== src/Tests/Acmes.antt =====
-- The theorems on the ACME server, applied.
use mnemoca.Acme.Names.{CsrNames, check_csr_identifiers, check_csr_identifiers_lem}
use mnemoca.Acme.Nonces.{issue_nonce, consume_nonce, nonce_once}
use mnemoca.Prelude.{eq_iff, true, arith, ok, ◌≢◌}
use mnemoca.Store.Fault.{ghost}
use mnemoca.Store.Fault.{fine}
use mnemoca.Prelude.{true, String, ◌≡◌, contains, length, refl, List, [], ◌∷◌, ◌⊎◌}

abbrev names : CsrNames
names = record {
  common_name = "a.example";
  dns_names = "b.example" ∷ "a.example" ∷ [];
  email_addresses = [];
  ip_addresses = [];
  uris = [];
}

abbrev wanted : List String
wanted = "a.example" ∷ "b.example" ∷ []

check_csr_identifiers_lem_example :
    (contains names.dns_names "b.example" ≡ contains wanted "b.example")
    × (length names.email_addresses ≡ 0)
    × (length names.ip_addresses ≡ 0)
    × (length names.uris ≡ 0)
    × ((names.common_name ≡ "") ⊎ (contains wanted names.common_name ≡ true))
unfolding check_csr_identifiers contains
check_csr_identifiers_lem_example = check_csr_identifiers_lem names wanted refl "b.example"

nonce_once_example :
    let issued = (issue_nonce fine 100 "n" (record { docs = []; seq = 0 })).1 in
    let (r, used) = consume_nonce fine 699 "n" issued in
    (r ≡ ok true) × ((consume_nonce ghost 700 "n" used).0 ≢ ok true)
nonce_once_example =
    nonce_once ghost 100 699 700 "n" (record { docs = []; seq = 0 })
      (λ h. absurd (ground (arith, h, eq_iff "n" "")))
