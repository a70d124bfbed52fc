-- ===== src/Crypto/Primitives.antt =====
-- What forwarder/app/crypto takes from the `cryptography` package and from `hashlib`: parameters of
-- the model. A call that may raise is an `Option`. `Correct` states the documented behaviour.
use jd_relay.Common.{
  ℕ, ◌+◌, ◌≡◌, Bool, true, Option, some, Bytes, IsBytes, length, Text, All, IsAscii, is_truthy,
}

pub record Primitives : Type 1 where
  pub PrivateKey : Type 0
  pub PublicKey : Type 0
  pub load_private_pem : Bytes → Option PrivateKey
  pub load_public_pem : Bytes → Option PublicKey
  pub public_key : PrivateKey → PublicKey
  -- ECDSA with SHA-256; the number is the randomness of the signature
  pub ecdsa_sign : PrivateKey → Bytes → ℕ → Bytes
  pub ecdsa_verify : PublicKey → Bytes → Bytes → Bool
  -- AES-GCM with key, nonce and text; the tag stands behind the ciphertext
  pub aead_encrypt : Bytes → Bytes → Bytes → Option Bytes
  pub aead_decrypt : Bytes → Bytes → Bytes → Option Bytes

pub record Correct (P : Primitives) : Type 0 where
  pub ecdsa_verify-sign :
      (k : P.PrivateKey) (d : Bytes) (seed : ℕ)
      → P.ecdsa_verify (P.public_key k) d (P.ecdsa_sign k d seed) ≡ true
  pub ecdsa_sign-IsBytes :
      (k : P.PrivateKey) (d : Bytes) (seed : ℕ) → IsBytes (P.ecdsa_sign k d seed)
  pub aead_decrypt-encrypt :
      (key iv text : Bytes) {c : Bytes}
      → P.aead_encrypt key iv text ≡ some c
      → P.aead_decrypt key iv c ≡ some text
  pub length-aead_encrypt :
      (key iv text : Bytes) {c : Bytes}
      → P.aead_encrypt key iv text ≡ some c
      → length c ≡ length text + 16
  pub aead_encrypt-IsBytes :
      (key iv text : Bytes) {c : Bytes} → P.aead_encrypt key iv text ≡ some c → IsBytes c

-- The same keys for the key exchange, with their exports, and SHA-256.
pub record KeyExchange (P : Primitives) : Type 0 where
  pub exchange : P.PrivateKey → P.PublicKey → Option Bytes
  pub public_der : P.PublicKey → Bytes
  pub public_pem : P.PublicKey → Text
  pub private_pem : P.PrivateKey → Bytes
  pub load_public_der : Bytes → Option P.PublicKey
  pub sha256 : Bytes → Bytes

-- Both ends compute the same secret, exported keys are loaded back, a PEM text is not empty and is
-- ASCII, and a digest has 32 bytes.
pub record Agrees (P : Primitives) (X : KeyExchange P) : Type 0 where
  pub exchange_comm :
      (a b : P.PrivateKey) → X.exchange a (P.public_key b) ≡ X.exchange b (P.public_key a)
  pub load-public_pem : (k : P.PublicKey) → P.load_public_pem (X.public_pem k) ≡ some k
  pub load-public_der : (k : P.PublicKey) → X.load_public_der (X.public_der k) ≡ some k
  pub load-private_pem : (k : P.PrivateKey) → P.load_private_pem (X.private_pem k) ≡ some k
  pub public_pem-ne-nil : (k : P.PublicKey) → is_truthy (X.public_pem k) ≡ true
  pub private_pem-ne-nil : (k : P.PrivateKey) → is_truthy (X.private_pem k) ≡ true
  pub public_pem-IsAscii : (k : P.PublicKey) → All IsAscii (X.public_pem k)
  pub length-sha256 : (d : Bytes) → length (X.sha256 d) ≡ 32
