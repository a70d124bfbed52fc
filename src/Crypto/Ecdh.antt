-- ===== src/Crypto/Ecdh.antt =====
-- The ECDH key exchange, forwarder/app/crypto/ecdh.py: an object is its ephemeral private key. The key
-- that a constructor generates is an argument, and so is the content of a file.
use jd_relay.Common.{
  is_ascii, ◌≡◌, refl, true, [], ◌∷◌, Option, none, some, Text, Bytes, length, All, IsAscii, arith,
  if◌then◌else◌,
}
use jd_relay.Common.Outcome.{Outcome, returned, library_error, unicode_error, ◌>>=◌, or_raise}
use jd_relay.Crypto.Primitives.{Primitives, KeyExchange, Agrees}

-- `s.encode("ascii")`
unfoldable pub ascii_encode : Text → Option Bytes
ascii_encode s = if is_ascii s then some s else none

is_ascii-IsAscii : (s : Text) → All IsAscii s → is_ascii s ≡ true
is_ascii-IsAscii [] h = refl
is_ascii-IsAscii (c ∷ s) h = ground (arith, is_ascii-IsAscii s)

pub ascii_encode-ascii : (s : Text) → All IsAscii s → ascii_encode s ≡ some s
unfolding ascii_encode
ascii_encode-ascii s h = rw (is_ascii-IsAscii s h) refl

module _ (P : Primitives) (X : KeyExchange P) where
  unfoldable pub from_private_key_file : Option Bytes → Outcome P.PrivateKey
  from_private_key_file file = or_raise library_error file >>= λ pem_data.
      or_raise library_error (P.load_private_pem pem_data)

  unfoldable pub public_key_der : P.PrivateKey → Bytes
  public_key_der k = X.public_der (P.public_key k)

  unfoldable pub public_key_pem : P.PrivateKey → Text
  public_key_pem k = X.public_pem (P.public_key k)

  unfoldable pub derive_shared_secret : P.PrivateKey → Bytes → Outcome Bytes
  derive_shared_secret k peer_pub_der = do
    peer_key ← or_raise library_error (X.load_public_der peer_pub_der)
    raw_secret ← or_raise library_error (X.exchange k peer_key)
    returned (X.sha256 raw_secret)

  unfoldable pub derive_shared_secret_pem : P.PrivateKey → Text → Outcome Bytes
  derive_shared_secret_pem k peer_pub_pem = do
    pem ← or_raise unicode_error (ascii_encode peer_pub_pem)
    peer_key ← or_raise library_error (P.load_public_pem pem)
    raw_secret ← or_raise library_error (X.exchange k peer_key)
    returned (X.sha256 raw_secret)

  -- The two files that are written.
  unfoldable pub generate_keypair : P.PrivateKey → Bytes × Text
  generate_keypair k = (X.private_pem k, X.public_pem (P.public_key k))

  -- Two ends that exchange their public keys, in whatever of the two formats each reads, derive the
  -- same key of 32 bytes, if the exchange of their keys succeeds.
  pub derive_shared_secret_agrees :
      (a b : P.PrivateKey) (raw_secret : Bytes)
      → Agrees P X
      → X.exchange a (P.public_key b) ≡ some raw_secret
      → (derive_shared_secret a (public_key_der b) ≡ returned (X.sha256 raw_secret))
        × (derive_shared_secret b (public_key_der a) ≡ returned (X.sha256 raw_secret))
        × (derive_shared_secret_pem a (public_key_pem b) ≡ returned (X.sha256 raw_secret))
        × (derive_shared_secret_pem b (public_key_pem a) ≡ returned (X.sha256 raw_secret))
        × (length (X.sha256 raw_secret) ≡ 32)
  unfolding derive_shared_secret derive_shared_secret_pem public_key_der public_key_pem
  derive_shared_secret_agrees a b raw_secret law made =
      simp
        (
          law.load-public_der,
          law.load-public_pem,
          ascii_encode-ascii (X.public_pem (P.public_key a)) (law.public_pem-IsAscii _),
          ascii_encode-ascii (X.public_pem (P.public_key b)) (law.public_pem-IsAscii _),
          law.exchange_comm b a,
          made,
          law.length-sha256,
        )
        (refl, refl, refl, refl, refl)
