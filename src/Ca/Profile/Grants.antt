-- ===== src/Ca/Profile/Grants.antt =====
-- What a profile can and cannot grant.
use mathlib.Core.Path.{ap, subst}
use mathlib.Core.Option.{some-injective}
use mnemoca.Prelude.{◌||◌, ◌∙◌, is_ok, Bool-cases, inl, inr, str_eq, sym}
use mnemoca.Ca.Profile.{
  usages_of, known_algorithms, pos, int_leb, Bool, true, false, String, Profile, KeyUsage, no_usage,
  usage_or, profile_key_usages, named_usages, key_usage, validate, ext_key_usages, is_tenant_id,
}
use mnemoca.Prelude.{
  ◌≡◌, arith, lookup, eq_iff, some, contains, List, [], ◌∷◌, ok, refl, Option-cases,
}

-- the bits that a list of names stands for
abbrev pub bits_of : List String → KeyUsage
bits_of names = record {
  digital_signature = contains names "digital_signature";
  content_commitment = contains names "content_commitment";
  key_encipherment = contains names "key_encipherment";
  data_encipherment = contains names "data_encipherment";
  key_agreement = contains names "key_agreement";
  cert_sign = false;
  crl_sign = false;
}

-- The property below at one name.
abbrev StandsFor : KeyUsage → String → Type 0
StandsFor u name = lookup name profile_key_usages ≡ some u → u ≡ bits_of (name ∷ [])

at_name :
    (given name : String) {u : KeyUsage}
    → str_eq given name ≡ true
    → StandsFor u given
    → StandsFor u name
at_name given name {u} h = subst (StandsFor u) ((eq_iff given name).0 h)

named_bits : (name : String) (u : KeyUsage) → StandsFor u name
unfolding lookup contains
named_bits name u h = elim (Bool-cases (str_eq "content_commitment" name)) [
  | inl e ↦ at_name "content_commitment" name e (λ h'. sym (some-injective _ _ h')) h
  | inr e0 ↦ elim (Bool-cases (str_eq "data_encipherment" name)) [
    | inl e ↦ at_name "data_encipherment" name e (λ h'. sym (some-injective _ _ h')) h
    | inr e1 ↦ elim (Bool-cases (str_eq "digital_signature" name)) [
      | inl e ↦ at_name "digital_signature" name e (λ h'. sym (some-injective _ _ h')) h
      | inr e2 ↦ elim (Bool-cases (str_eq "key_agreement" name)) [
        | inl e ↦ at_name "key_agreement" name e (λ h'. sym (some-injective _ _ h')) h
        | inr e3 ↦ elim (Bool-cases (str_eq "key_encipherment" name)) [
          | inl e ↦ at_name "key_encipherment" name e (λ h'. sym (some-injective _ _ h')) h
          | inr e4 ↦ absurd (ground (arith, h, e0, e1, e2, e3, e4))
        ]
      ]
    ]
  ]
]

or_false : (a : Bool) → a ≡ (a || false)
or_false true = refl
or_false false = refl

or_split : (a b c : Bool) → ((a || (b || false)) || c) ≡ (a || (b || c))
or_split true b c = refl
or_split false true c = refl
or_split false false c = refl

none_added : (out : KeyUsage) → out ≡ usage_or out (bits_of [])
unfolding contains
none_added out = λ i. record {
  digital_signature = or_false out.digital_signature i;
  content_commitment = or_false out.content_commitment i;
  key_encipherment = or_false out.key_encipherment i;
  data_encipherment = or_false out.data_encipherment i;
  key_agreement = or_false out.key_agreement i;
  cert_sign = or_false out.cert_sign i;
  crl_sign = or_false out.crl_sign i;
}

one_added :
    (out : KeyUsage) (name : String) (names : List String)
    → usage_or (usage_or out (bits_of (name ∷ []))) (bits_of names)
      ≡ usage_or out (bits_of (name ∷ names))
unfolding contains
one_added out name names = λ i. record {
  digital_signature =
      or_split out.digital_signature (str_eq name "digital_signature")
        (contains names "digital_signature") i;
  content_commitment =
      or_split out.content_commitment (str_eq name "content_commitment")
        (contains names "content_commitment") i;
  key_encipherment =
      or_split out.key_encipherment (str_eq name "key_encipherment")
        (contains names "key_encipherment") i;
  data_encipherment =
      or_split out.data_encipherment (str_eq name "data_encipherment")
        (contains names "data_encipherment") i;
  key_agreement =
      or_split out.key_agreement (str_eq name "key_agreement") (contains names "key_agreement") i;
  cert_sign = or_split out.cert_sign false false i;
  crl_sign = or_split out.crl_sign false false i;
}

named_usages-bits :
    (names : List String) (out : KeyUsage) {u : KeyUsage}
    → named_usages out names ≡ ok u
    → u ≡ usage_or out (bits_of names)
unfolding named_usages contains
named_usages-bits [] out {u} h = sym (ground (arith, h)) ∙ none_added out
named_usages-bits (name ∷ names) out {u} h = elim (Option-cases (lookup name profile_key_usages)) [
  | inl e ↦ absurd (ground (arith, e, h))
  | inr (usage, e) ↦
      named_usages-bits names (usage_or out usage) (ground (arith, e, h))
      ∙ ap (λ v. usage_or (usage_or out v) (bits_of names)) (named_bits name usage e)
      ∙ one_added out name names
]

-- the bits that a profile's list of key usages stands for
abbrev pub granted : List String → KeyUsage
granted [] = bits_of ("digital_signature" ∷ [])
granted (name ∷ names) = bits_of (name ∷ names)

usages_of-granted :
    (names : List String) {u : KeyUsage} → usages_of names ≡ ok u → u ≡ granted names
unfolding contains
usages_of-granted [] h = sym (ground (arith, h))
usages_of-granted (name ∷ names) h = named_usages-bits (name ∷ names) no_usage h

-- A profile that names key usages grants exactly those, one that names none grants digital
-- signatures, and neither ever grants the signing of certificates or of revocation lists.
pub key_usage-granted :
    (p : Profile) {u : KeyUsage}
    → key_usage p ≡ ok u
    → (u ≡ granted p.key_usages) × (u.cert_sign ≡ false) × (u.crl_sign ≡ false)
unfolding key_usage
key_usage-granted p {u} h =
    let same = usages_of-granted p.key_usages h in
    (
      same,
      ap (λ v. v.cert_sign) same ∙ never p.key_usages,
      ap (λ v. v.crl_sign) same ∙ never_lists p.key_usages,
    )
  where
    never : (names : List String) → (granted names).cert_sign ≡ false
    never [] = refl
    never (_ ∷ _) = refl

    never_lists : (names : List String) → (granted names).crl_sign ≡ false
    never_lists [] = refl
    never_lists (_ ∷ _) = refl

-- A profile that validates has a well-formed name, positive validities, the default one not above
-- the maximum, extended key usages and key usages that resolve, and known key algorithms.
pub validate_lem :
    (p : Profile)
    → validate p ≡ ok tt
    → (is_tenant_id p.name ≡ true)
      × (int_leb p.default_validity (pos 0) ≡ false)
      × (int_leb p.max_validity (pos 0) ≡ false)
      × (int_leb p.default_validity p.max_validity ≡ true)
      × (is_ok (ext_key_usages p) ≡ true)
      × (is_ok (key_usage p) ≡ true)
      × (known_algorithms p.allowed_key_algs ≡ ok tt)
unfolding validate
validate_lem p h = ground (arith, h)
