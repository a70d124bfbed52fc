-- ===== src/Crypto/AesGcm/Laws.antt =====
-- What the cipher of forwarder/app/crypto/aes_gcm.py promises, over any AEAD that is correct.
use jd_relay.Common.{
  ◌-◌, ◌≡◌, refl, ap, ◌⊎◌, inl, inr, true, false, ◌++◌, Option, none, some, Bytes, length, take,
  drop, ◌==◌, arith, take-append-drop, length-drop, length-append, Option-cases, Bool-cases,
}
use jd_relay.Crypto.Primitives.{Primitives, Correct}
use jd_relay.Crypto.AesGcm.{AesGcmCipher, chosen_iv, encrypt, decrypt, split_tag, opened}

-- A success of `encrypt` comes from the library's, at an IV of the right size.
pub encrypt_success :
    (P : Primitives) (c : AesGcmCipher) (plaintext : Bytes) (iv : Option Bytes) (random : Bytes)
    → (encrypt P c plaintext iv random).is_ok ≡ true
    → (ct : Bytes) × (length (chosen_iv iv random) ≡ 12)
      × (P.aead_encrypt c.key (chosen_iv iv random) plaintext ≡ some ct)
      × (encrypt P c plaintext iv random ≡ split_tag (chosen_iv iv random) (some ct))
unfolding encrypt
encrypt_success P c plaintext iv random h =
    elim (Option-cases (P.aead_encrypt c.key (chosen_iv iv random) plaintext)) [
      | inl e ↦ absurd (ground arith)
      | inr (ct, e) ↦ (ct, ground arith, e, ground arith)
    ]

-- A decryption fails, or opens a text.
pub decrypt-cases :
    (P : Primitives) (c : AesGcmCipher) (ciphertext iv tag : Bytes)
    → ((decrypt P c ciphertext iv tag).is_ok ≡ false)
      ⊎ ((p : Bytes) × (decrypt P c ciphertext iv tag ≡ opened (some p)))
unfolding decrypt
decrypt-cases P c ciphertext iv tag =
    elim (Option-cases (P.aead_decrypt c.key iv (ciphertext ++ tag))) [
      | inl e ↦ inl (ground arith)
      | inr (p, e) ↦ elim (Bool-cases (length iv == 12)) [
        | inl l ↦ elim (Bool-cases (length tag == 16)) [
          | inl t ↦ inr (p, rw (l, t, e) refl)
          | inr t ↦ inl (rw (l, t) refl)
        ]
        | inr l ↦ inl (rw l refl)
      ]
    ]

module _ (P : Primitives) (correct : Correct P) (c : AesGcmCipher) (plaintext iv ct : Bytes) where
  sizes :
      P.aead_encrypt c.key iv plaintext ≡ some ct
      → (length (drop (length ct - 16) ct) ≡ 16)
        × (length (take (length ct - 16) ct) ≡ length plaintext)
  sizes e = omega (
    arith,
    correct.length-aead_encrypt c.key iv plaintext e,
    length-drop (length ct - 16) ct,
    ap length (take-append-drop (length ct - 16) ct),
    length-append (take (length ct - 16) ct) (drop (length ct - 16) ct),
  )

  pub opens :
      length iv ≡ 12
      → P.aead_encrypt c.key iv plaintext ≡ some ct
      → decrypt P c (take (length ct - 16) ct) iv (drop (length ct - 16) ct)
        ≡ opened (some plaintext)
  unfolding decrypt
  opens h e =
      let s = sizes e in
      rw
        (
          h,
          s.0,
          take-append-drop (length ct - 16) ct,
          correct.aead_decrypt-encrypt c.key iv plaintext e,
        )
        refl

-- An encryption at an IV of the right size is the library's.
pub encrypts_at :
    (P : Primitives) (c : AesGcmCipher) (plaintext iv : Bytes)
    → length iv ≡ 12
    → encrypt P c plaintext none iv ≡ split_tag iv (P.aead_encrypt c.key iv plaintext)
unfolding encrypt chosen_iv
encrypts_at P c plaintext iv h = rw h refl

module _ (P : Primitives) (correct : Correct P) where
  -- An encryption that reports success gives an IV of 12 bytes and a tag of 16, with a ciphertext as
  -- long as the plaintext, and decrypting those three with the same key gives the plaintext.
  pub decrypt-encrypt :
      (c : AesGcmCipher) (plaintext : Bytes) (iv : Option Bytes) (random : Bytes)
      → let r = encrypt P c plaintext iv random in
        r.is_ok ≡ true
        → (decrypt P c r.ciphertext r.iv r.tag
            ≡ record { plaintext = plaintext; is_ok = true; error = none })
          × (length r.iv ≡ 12)
          × (length r.tag ≡ 16)
          × (length r.ciphertext ≡ length plaintext)
  decrypt-encrypt c plaintext iv random h =
      let (ct, l, e, p) = encrypt_success P c plaintext iv random h in
      let use_iv = chosen_iv iv random in
      let s = sizes P correct c plaintext use_iv ct e in
      rw p (opens P correct c plaintext use_iv ct l e, l, s.0, s.1)
