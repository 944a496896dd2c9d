-- ===== src/Acme/Accounts/Bound.antt =====
-- The accounts of a tenant that requires an external binding.
use Prim.Native.String.{◌++◌ as text_append}
use mnemoca.Prelude.{String, some, ok, ◌≡◌, lookup}
use mnemoca.Store.Fault.{Fault}
use mnemoca.Store.Bucket.{Bucket}
use mnemoca.Audit.Record.{Bytes}
use mnemoca.Acme.Problem.{EabKey}
use mnemoca.Acme.Keys.{Codec, jwk_thumbprint}
use mnemoca.Acme.Requests.{FlatJws, Wire}
use mnemoca.Acme.Accounts.{Forms, Accounts}

module _ (l : Codec) (w : Wire) (fs : Forms) where
  -- A stored external key with the id `kid` has authenticated the account key `jwk`.
  abbrev pub IsBound : Bucket EabKey → String → String → Type 0
  IsBound eab jwk kid =
      (jws : FlatJws) × (ek : EabKey) × (payload : Bytes) × (thumb : String) × (lookup kid eab.docs
        ≡ some ek)
      × (l.unbase64 jws.payload ≡ some payload)
      × (jwk_thumbprint l (fs.text payload) ≡ ok thumb)
      × (jwk_thumbprint l jwk ≡ ok thumb)
      × (l.unbase64 jws.signature
          ≡ some
              (fs.hmac ek.key (l.utf8 (text_append jws.protected (text_append "." jws.payload)))))
