-- ===== src/Crypto/Ecdsa.antt =====
-- The ECDSA signer, forwarder/app/crypto/ecdsa.py: with a private key it signs and verifies, with a
-- public key alone it verifies. Reading a key file gives the bytes that the constructors take.
use jd_relay.Common.{
  ℕ, Bool, true, false, [], Option, none, some, Bytes, Text, ◌≡◌, refl, is_truthy, if◌then◌else◌,
}
use jd_relay.Common.Outcome.{Outcome, returned, library_error, ◌>>=◌, or_raise}
use jd_relay.Crypto.Primitives.{Primitives, KeyExchange}

pub record EcdsaSigner (P : Primitives) : Type 0 where
  pub private_key : Option P.PrivateKey
  pub public_key : Option P.PublicKey

module _ (P : Primitives) where
  -- The default constructor.
  abbrev pub no_keys : EcdsaSigner P
  no_keys = record { private_key = none; public_key = none }

  unfoldable pub from_private_key_data : Bytes → Outcome (EcdsaSigner P)
  from_private_key_data pem_data =
      if is_truthy pem_data
      then (or_raise library_error (P.load_private_pem pem_data) >>= λ k.
          returned (record { private_key = some k; public_key = none }))
      else returned no_keys

  unfoldable pub from_public_key_data : Bytes → Outcome (EcdsaSigner P)
  from_public_key_data pem_data =
      if is_truthy pem_data
      then (or_raise library_error (P.load_public_pem pem_data) >>= λ k.
          returned (record { private_key = none; public_key = some k }))
      else returned no_keys

  -- A file that is not there gives no bytes, and raises.
  unfoldable pub from_private_key_file : Option Bytes → Outcome (EcdsaSigner P)
  unfolding from_private_key_data
  from_private_key_file file = or_raise library_error file >>= from_private_key_data

  unfoldable pub from_public_key_file : Option Bytes → Outcome (EcdsaSigner P)
  unfolding from_public_key_data
  from_public_key_file file = or_raise library_error file >>= from_public_key_data

  unfoldable pub can_sign : EcdsaSigner P → Bool
  can_sign s = elim (s.private_key) [ none ↦ false | some k ↦ true ]

  -- The number is the randomness of the signature. Without a private key the signature is empty.
  unfoldable pub sign : EcdsaSigner P → Bytes → ℕ → Bytes
  sign s d seed = elim (s.private_key) [ none ↦ [] | some k ↦ P.ecdsa_sign k d seed ]

  -- The public key, or else that of the private key.
  unfoldable pub verifying_key : EcdsaSigner P → Option P.PublicKey
  verifying_key s = elim (s.public_key) [
    | some k ↦ some k
    | none ↦ elim (s.private_key) [ none ↦ none | some k ↦ some (P.public_key k) ]
  ]

  unfoldable pub verify : EcdsaSigner P → Bytes → Bytes → Bool
  verify s d signature = elim (verifying_key s) [
    | none ↦ false
    | some k ↦ P.ecdsa_verify k d signature
  ]

  unfoldable pub public_key_der : KeyExchange P → EcdsaSigner P → Bytes
  unfolding verifying_key
  public_key_der X s = elim (verifying_key s) [ none ↦ [] | some k ↦ X.public_der k ]

  -- The private key's file and the public key's file, for the key that was generated.
  unfoldable pub generate_keypair : KeyExchange P → P.PrivateKey → Bytes × Text
  generate_keypair X k = (X.private_pem k, X.public_pem (P.public_key k))

  pub verify_at :
      (s : EcdsaSigner P) {k : P.PublicKey} (d signature : Bytes)
      → verifying_key s ≡ some k
      → verify s d signature ≡ P.ecdsa_verify k d signature
  unfolding verify
  verify_at s d signature e = rw (e, verify) refl
