-- ===== src/Crypto/AesGcm.antt =====
-- The AES-256-GCM cipher, forwarder/app/crypto/aes_gcm.py: ciphertext and tag are kept apart. The
-- error string is a `CipherError` with the number that it prints; `none` is the empty string.
pub mod Laws
use jd_relay.Common.{
  ℕ, ◌-◌, Bool, true, false, not, [], ◌++◌, Option, none, some, Text, Bytes, IsBytes, ◌≡◌, arith,
  length, take, drop, if◌then◌else◌, ◌==◌, is_truthy,
}
use jd_relay.Common.Outcome.{Outcome, returned, raised, value_error, ◌>>=◌}
use jd_relay.Crypto.Base64.Hex.{hex_encode, hex_decode, hex_decode-encode}
use jd_relay.Crypto.Primitives.{Primitives}

pub data CipherError : Type 0 where
  iv_size tag_size : ℕ → CipherError
  encryption_failed verification_failed : CipherError

pub record EncryptResult : Type 0 where
  pub ciphertext : Bytes
  pub iv : Bytes
  pub tag : Bytes
  pub is_ok : Bool
  pub error : Option CipherError

pub record DecryptResult : Type 0 where
  pub plaintext : Bytes
  pub is_ok : Bool
  pub error : Option CipherError

abbrev pub key_size : ℕ
key_size = 32

abbrev pub iv_size_of : ℕ
iv_size_of = 12

abbrev pub tag_size_of : ℕ
tag_size_of = 16

pub record AesGcmCipher : Type 0 where
  pub key : Bytes

-- `AesGcmCipher(key)`
unfoldable pub new_cipher : Bytes → Outcome AesGcmCipher
new_cipher key =
    if not (length key == key_size) then raised value_error else returned (record { key = key })

-- `AesGcmCipher.from_hex`
unfoldable pub cipher_from_hex : Text → Outcome AesGcmCipher
unfolding new_cipher
cipher_from_hex hex_key = do
  key ← hex_decode hex_key
  if not (length key == key_size) then raised value_error else new_cipher key

-- A cipher comes from a hexadecimal key just where it comes from its bytes.
pub cipher_from_hex-hex_encode :
    (key : Bytes) → IsBytes key → cipher_from_hex (hex_encode key) ≡ new_cipher key
unfolding cipher_from_hex new_cipher
cipher_from_hex-hex_encode key h = rw (hex_decode-encode key h) (ground arith)

abbrev no_encryption : CipherError → EncryptResult
no_encryption e = record { ciphertext = []; iv = []; tag = []; is_ok = false; error = some e }

abbrev no_decryption : CipherError → DecryptResult
no_decryption e = record { plaintext = []; is_ok = false; error = some e }

-- `ct_with_tag[:-16]` and `ct_with_tag[-16:]`
abbrev pub split_tag : Bytes → Option Bytes → EncryptResult
split_tag iv none = no_encryption encryption_failed
split_tag iv (some c) = record {
  ciphertext = take (length c - tag_size_of) c;
  iv = iv;
  tag = drop (length c - tag_size_of) c;
  is_ok = true;
  error = none;
}

abbrev pub opened : Option Bytes → DecryptResult
opened none = no_decryption verification_failed
opened (some p) = record { plaintext = p; is_ok = true; error = none }

-- `iv if iv else random_bytes(12)`; the second argument is what `random_bytes` gives.
unfoldable pub chosen_iv : Option Bytes → Bytes → Bytes
chosen_iv none random = random
chosen_iv (some iv) random = if is_truthy iv then iv else random

module _ (P : Primitives) where
  open P use {aead_encrypt, aead_decrypt}

  unfoldable pub encrypt : AesGcmCipher → Bytes → Option Bytes → Bytes → EncryptResult
  encrypt c plaintext iv random =
      let use_iv = chosen_iv iv random in
      if not (length use_iv == iv_size_of)
      then no_encryption (iv_size (length use_iv))
      else split_tag use_iv (aead_encrypt c.key use_iv plaintext)

  unfoldable pub decrypt : AesGcmCipher → Bytes → Bytes → Bytes → DecryptResult
  decrypt c ciphertext iv tag =
      if not (length iv == iv_size_of)
      then no_decryption (iv_size (length iv))
      else if not (length tag == tag_size_of)
      then no_decryption (tag_size (length tag))
      else opened (aead_decrypt c.key iv (ciphertext ++ tag))
