-- ===== src/Tests/Keys.antt =====
-- Primitives that are correct: keys are numbers, a signature names its key, and the cipher adds a tag
-- of zeros to a text of bytes.
use jd_relay.Common.{
  ℕ, zero, suc, All, IsAscii, Text, refl, ◌*◌, ◌+◌, ◌-◌, ◌%◌, ◌<◌, ◌≡◌, ap, ◌∙◌, Bool, true, ◌&&◌,
  [], ◌∷◌, ◌++◌, Option, none, some, Bytes, IsBytes, All-append, length, length-append, take,
  take-append, text_eq, text_eq_refl, arith, ltb, is_truthy, if◌then◌else◌,
}
use native.Mathlib.Nat.{mul_comm}
use jd_relay.Crypto.Primitives.{Primitives, Correct, KeyExchange, Agrees}

abbrev zeros : Bytes
zeros = 0 ∷ 0 ∷ 0 ∷ 0 ∷ 0 ∷ 0 ∷ 0 ∷ 0 ∷ 0 ∷ 0 ∷ 0 ∷ 0 ∷ 0 ∷ 0 ∷ 0 ∷ 0 ∷ []

abbrev pub are_bytes : Bytes → Bool
are_bytes [] = true
are_bytes (b ∷ bs) = ltb b 256 && are_bytes bs

pub are_bytes-IsBytes : (bs : Bytes) → are_bytes bs ≡ true → IsBytes bs
are_bytes-IsBytes [] h = tt
are_bytes-IsBytes (b ∷ bs) h = (ground arith, are_bytes-IsBytes bs (ground arith))

abbrev seal : Bytes → Option Bytes
seal text = if are_bytes text then some (text ++ zeros) else none

abbrev unseal : Bytes → Option Bytes
unseal c = some (take (length c - 16) c)

abbrev first_byte : Bytes → ℕ
first_byte [] = 0
first_byte (b ∷ bs) = b

abbrev pub keys : Primitives
keys = record {
  PrivateKey = ℕ;
  PublicKey = ℕ;
  load_private_pem = λ pem. some (length pem - 1);
  load_public_pem = λ pem. some (length pem - 1);
  public_key = λ k. k;
  ecdsa_sign = λ k d seed. (k % 256) ∷ (seed % 256) ∷ [];
  ecdsa_verify = λ k d signature. text_eq (take 1 signature) ((k % 256) ∷ []);
  aead_encrypt = λ key iv text. seal text;
  aead_decrypt = λ key iv c. unseal c;
}

sealed :
    (text : Bytes) {c : Bytes} → seal text ≡ some c → (are_bytes text ≡ true) × (text ++ zeros ≡ c)
sealed text {c} h = ground arith

unseal-seal : (text : Bytes) {c : Bytes} → seal text ≡ some c → unseal c ≡ some text
unseal-seal text {c} h =
    let (b, e) = sealed text h in
    rw (← e) (
      ap some (
        ap (λ n. take n (text ++ zeros)) (omega (arith, length-append text zeros))
        ∙ take-append text zeros))

length-seal : (text : Bytes) {c : Bytes} → seal text ≡ some c → length c ≡ length text + 16
length-seal text {c} h = let (b, e) = sealed text h in rw (← e) (length-append text zeros)

seal-IsBytes : (text : Bytes) {c : Bytes} → seal text ≡ some c → IsBytes c
seal-IsBytes text {c} h =
    let (b, e) = sealed text h in
    rw (← e) (All-append (λ x. x < 256) text zeros (are_bytes-IsBytes text b) (omega arith))

pub keys-Correct : Correct keys
keys-Correct = record {
  ecdsa_verify-sign = λ k d seed. text_eq_refl ((k % 256) ∷ []);
  ecdsa_sign-IsBytes = λ k d seed. omega arith;
  aead_decrypt-encrypt = λ key iv text h. unseal-seal text h;
  length-aead_encrypt = λ key iv text h. length-seal text h;
  aead_encrypt-IsBytes = λ key iv text h. seal-IsBytes text h;
}

-- A key as a text of one letter more.
abbrev letters : ℕ → Text
letters zero = b'A' ∷ []
letters (suc k) = b'A' ∷ letters k

length-letters : (k : ℕ) → length (letters k) ≡ suc k
length-letters zero = refl
length-letters (suc k) = ap suc (length-letters k)

letters-IsAscii : (k : ℕ) → All IsAscii (letters k)
letters-IsAscii zero = omega arith
letters-IsAscii (suc k) = (omega arith, letters-IsAscii k)

letters-ne-nil : (k : ℕ) → is_truthy (letters k) ≡ true
letters-ne-nil zero = refl
letters-ne-nil (suc k) = refl

loaded : (k : ℕ) → some (length (letters k) - 1) ≡ some k
loaded k = ap some (omega (arith, length-letters k))

-- A key exchange that multiplies, and a digest that keeps the first byte.
abbrev pub exchange : KeyExchange keys
exchange = record {
  exchange = λ a b. some (((a * b) % 256) ∷ []);
  public_der = λ k. k ∷ [];
  public_pem = letters;
  private_pem = letters;
  load_public_der = λ der. some (first_byte der);
  sha256 = λ d.
      (first_byte d % 256)
      ∷ (zeros ++ (0 ∷ 0 ∷ 0 ∷ 0 ∷ 0 ∷ 0 ∷ 0 ∷ 0 ∷ 0 ∷ 0 ∷ 0 ∷ 0 ∷ 0 ∷ 0 ∷ 0 ∷ []));
}

pub exchange-Agrees : Agrees keys exchange
exchange-Agrees = record {
  exchange_comm = λ a b. ap (λ n. some ((n % 256) ∷ [])) (mul_comm a b);
  load-public_pem = loaded;
  load-public_der = λ k. refl;
  load-private_pem = loaded;
  public_pem-ne-nil = letters-ne-nil;
  private_pem-ne-nil = letters-ne-nil;
  public_pem-IsAscii = letters-IsAscii;
  length-sha256 = λ d. refl;
}
