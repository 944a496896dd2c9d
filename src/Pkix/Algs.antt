-- ===== src/Pkix/Algs.antt =====
-- internal/pkix/algs.go: the registry of algorithms. Go's maps are lists in some order.
pub mod Oids
use mnemoca.Prelude.{
  ◌||◌, ◌==◌, ℕ, String, Bool, true, false, List, [], ◌∷◌, ◌++◌, Option, none, some, str_eq,
  if◌then◌else◌, ◌&&◌, not, length, ltb, map,
}

-- the hash that a signature is made over, or none for an algorithm that signs messages
pub data Hash : Type 0 where
  no_hash sha256 sha384 sha512 : Hash

pub record Info : Type 0 where
  pub alg : String
  pub oid : List ℕ
  pub hash : Hash
  pub pq : Bool
  pub hybrid : Bool
  pub experimental : Bool
  pub key_only : Bool
  pub verify_only : Bool

abbrev pub ecdsa_p256 : String
ecdsa_p256 = "ecdsa-p256"

abbrev pub ecdsa_p384 : String
ecdsa_p384 = "ecdsa-p384"

abbrev pub ed25519 : String
ed25519 = "ed25519"

abbrev plain : String → List ℕ → Hash → Bool → Info
plain alg oid hash pq = record {
  alg = alg;
  oid = oid;
  hash = hash;
  pq = pq;
  hybrid = false;
  experimental = false;
  key_only = false;
  verify_only = false;
}

abbrev composite : String → List ℕ → Info
composite alg oid = record (plain alg oid no_hash true) { hybrid = true; experimental = true }

abbrev rsa_key : String → Info
rsa_key alg = record (plain alg [] no_hash false) { key_only = true }

abbrev rsa_signature : String → List ℕ → Hash → Info
rsa_signature alg oid hash = record (plain alg oid hash false) { verify_only = true }

abbrev pub registry : List Info
registry =
    plain ecdsa_p256 (1 ∷ 2 ∷ 840 ∷ 10045 ∷ 4 ∷ 3 ∷ 2 ∷ []) sha256 false
    ∷ plain ecdsa_p384 (1 ∷ 2 ∷ 840 ∷ 10045 ∷ 4 ∷ 3 ∷ 3 ∷ []) sha384 false
    ∷ plain ed25519 (1 ∷ 3 ∷ 101 ∷ 112 ∷ []) no_hash false
    ∷ plain "ml-dsa-44" (2 ∷ 16 ∷ 840 ∷ 1 ∷ 101 ∷ 3 ∷ 4 ∷ 3 ∷ 17 ∷ []) no_hash true
    ∷ plain "ml-dsa-65" (2 ∷ 16 ∷ 840 ∷ 1 ∷ 101 ∷ 3 ∷ 4 ∷ 3 ∷ 18 ∷ []) no_hash true
    ∷ plain "ml-dsa-87" (2 ∷ 16 ∷ 840 ∷ 1 ∷ 101 ∷ 3 ∷ 4 ∷ 3 ∷ 19 ∷ []) no_hash true
    ∷ composite "composite-draft-19-mldsa65-ecdsa-p256-sha256"
        (1 ∷ 3 ∷ 6 ∷ 1 ∷ 5 ∷ 5 ∷ 7 ∷ 6 ∷ 45 ∷ [])
    ∷ composite "composite-draft-19-mldsa44-ed25519-sha512"
        (1 ∷ 3 ∷ 6 ∷ 1 ∷ 5 ∷ 5 ∷ 7 ∷ 6 ∷ 39 ∷ [])
    ∷ []

abbrev pub aux_registry : List Info
aux_registry =
    rsa_key "rsa-2048"
    ∷ rsa_key "rsa-3072"
    ∷ rsa_key "rsa-4096"
    ∷ rsa_signature "rsa-sha256" (1 ∷ 2 ∷ 840 ∷ 113549 ∷ 1 ∷ 1 ∷ 11 ∷ []) sha256
    ∷ rsa_signature "rsa-sha384" (1 ∷ 2 ∷ 840 ∷ 113549 ∷ 1 ∷ 1 ∷ 12 ∷ []) sha384
    ∷ rsa_signature "rsa-sha512" (1 ∷ 2 ∷ 840 ∷ 113549 ∷ 1 ∷ 1 ∷ 13 ∷ []) sha512
    ∷ []

-- an entry of a Go map, by its key
unfoldable pub entry_of : List Info → String → Option Info
entry_of [] alg = none
entry_of (info ∷ infos) alg = if str_eq info.alg alg then some info else entry_of infos alg

unfoldable pub lookup_alg : String → Option Info
unfolding entry_of
lookup_alg alg = elim (entry_of registry alg) [
  | some info ↦ some info
  | none ↦ entry_of aux_registry alg
]

unfoldable pub oid_eq : List ℕ → List ℕ → Bool
oid_eq [] [] = true
oid_eq [] (_ ∷ _) = false
oid_eq (_ ∷ _) [] = false
oid_eq (a ∷ as') (b ∷ bs) = a == b && oid_eq as' bs

-- the loop of ByOID over a map: the first entry that is met, if `strict` only with an OID
unfoldable pub find_oid : Bool → List Info → List ℕ → Option Info
unfolding oid_eq
find_oid strict [] oid = none
find_oid strict (info ∷ infos) oid =
    let rest = find_oid strict infos oid in
    if (not strict || ltb 0 (length info.oid)) && oid_eq info.oid oid then some info else rest

-- `main` and `aux` are the two maps, each in the order in which it is iterated.
unfoldable pub by_oid : List Info → List Info → List ℕ → Option Info
by_oid main aux oid = elim (find_oid false main oid) [
  | some info ↦ some info
  | none ↦ find_oid true aux oid
]

-- Algorithms, in the order of the map
unfoldable pub algorithms : List Info → List String
algorithms [] = []
algorithms (info ∷ infos) = info.alg ∷ algorithms infos

abbrev pub only_keys : List Info → List String
only_keys [] = []
only_keys (info ∷ infos) =
    let rest = only_keys infos in if info.key_only then info.alg ∷ rest else rest

unfoldable pub key_algorithms : List Info → List Info → List String
key_algorithms main aux = algorithms main ++ only_keys aux
