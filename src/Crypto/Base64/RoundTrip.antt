-- ===== src/Crypto/Base64/RoundTrip.antt =====
-- Decoding what forwarder/app/crypto/base64.py encoded.
use jd_relay.Common.{
  is_ascii, ℕ, zero, suc, ◌+◌, ◌*◌, ◌/◌, ◌%◌, ◌≤◌, ◌<◌, ◌≡◌, refl, ap, ap₂, ◌∙◌, true, List, [],
  ◌∷◌, ◌++◌, some, Text, Bytes, IsBytes, All, join, delete, length, take, drop, All-take, All-drop,
  All-append, All-join, All-imp, length-drop, take-append-drop, sym, arith,
}
use mathlib.Core.List.{append-nil}
use jd_relay.Crypto.Base64.{
  letter, standard_encode, digit, classify, first, second, third, fourth, emit, scan,
  standard_decode, lines, b64_encode, clean, b64_decode,
}

classify-letter : (v : ℕ) → v < 64 → classify (letter v) ≡ digit v
unfolding classify letter
classify-letter v h = ground arith

module _ (v : ℕ) (small : v < 64) (left pads : ℕ) (rest : Text) where
  scan_first : scan first left pads (letter v ∷ rest) ≡ scan second v 0 rest
  unfolding scan
  scan_first = rw (classify-letter v small, scan) refl

  scan_second :
      scan second left pads (letter v ∷ rest)
      ≡ emit (left * 4 + v / 16) (scan third (v % 16) 0 rest)
  unfolding scan
  scan_second = rw (classify-letter v small, scan) refl

  scan_third :
      scan third left pads (letter v ∷ rest) ≡ emit (left * 16 + v / 4) (scan fourth (v % 4) 0 rest)
  unfolding scan
  scan_third = rw (classify-letter v small, scan) refl

  scan_fourth : scan fourth left pads (letter v ∷ rest) ≡ emit (left * 64 + v) (scan first 0 0 rest)
  unfolding scan
  scan_fourth = rw (classify-letter v small, scan) refl

scan_padded :
    (left : ℕ)
    → (scan third left 0 (b'=' ∷ b'=' ∷ []) ≡ some []) × (scan fourth left 0 (b'=' ∷ []) ≡ some [])
unfolding scan
scan_padded left = (refl, refl)

emit_three :
    {x y z a b c : ℕ} (rest : Bytes)
    → x ≡ a
    → y ≡ b
    → z ≡ c
    → some (x ∷ y ∷ z ∷ rest) ≡ some (a ∷ b ∷ c ∷ rest)
emit_three rest p q r = cc

scan-encode : (d : Bytes) → IsBytes d → scan first 0 0 (standard_encode d) ≡ some d
unfolding standard_encode
scan-encode [] h = unfold scan in refl
scan-encode (a ∷ []) h = rw (scan_first (a / 4) (omega arith) 0 0 _) (
    rw (scan_second (a % 4 * 16) (omega arith) (a / 4) 0 _)
      (rw ((scan_padded _).0) (ap (λ x. some (x ∷ [])) (omega arith))))
scan-encode (a ∷ b ∷ []) h = rw (scan_first (a / 4) (omega arith) 0 0 _) (
    rw (scan_second (a % 4 * 16 + b / 16) (omega arith) (a / 4) 0 _) (
      rw (scan_third (b % 16 * 4) (omega arith) _ 0 _)
        (rw ((scan_padded _).1) (ap₂ (λ x y. some (x ∷ y ∷ [])) (omega arith) (omega arith)))))
scan-encode (a ∷ b ∷ c ∷ rest) h = rw (scan_first (a / 4) (omega arith) 0 0 _) (
    rw (scan_second (a % 4 * 16 + b / 16) (omega arith) (a / 4) 0 _) (
      rw (scan_third (b % 16 * 4 + c / 64) (omega arith) _ 0 _) (
        rw (scan_fourth (c % 64) (omega arith) _ 0 _) (
          rw (scan-encode rest h.1.1.1)
            (emit_three rest (omega arith) (omega arith) (omega arith))))))

-- The characters of a base64 text lie between '!' and 'z': no blank, no line end, no '|'.
abbrev pub IsPlain : ℕ → Type 0
IsPlain c = (33 ≤ c) × (c ≤ 122)

letter-IsPlain : (v : ℕ) → IsPlain (letter v)
unfolding letter
letter-IsPlain v = ground arith

pub standard_encode-IsPlain : (d : Bytes) → All IsPlain (standard_encode d)
unfolding standard_encode
standard_encode-IsPlain [] = tt
standard_encode-IsPlain (a ∷ []) = omega (arith, letter-IsPlain)
standard_encode-IsPlain (a ∷ b ∷ []) = omega (arith, letter-IsPlain)
standard_encode-IsPlain (a ∷ b ∷ c ∷ rest) = (
  letter-IsPlain (a / 4),
  (
    letter-IsPlain (a % 4 * 16 + b / 16),
    (letter-IsPlain (b % 16 * 4 + c / 64), (letter-IsPlain (c % 64), standard_encode-IsPlain rest)),
  ),
)

delete-plain : (c : ℕ) (s : Text) → c < 33 → All IsPlain s → delete c s ≡ s
unfolding delete
delete-plain c [] p h = refl
delete-plain c (x ∷ s) p h = ground (arith, delete-plain c s)

pub is_ascii-plain : (s : Text) → All IsPlain s → is_ascii s ≡ true
is_ascii-plain [] h = refl
is_ascii-plain (x ∷ s) h = ground (arith, is_ascii-plain s)

delete-append : (c : ℕ) (s t : Text) → delete c (s ++ t) ≡ delete c s ++ delete c t
unfolding delete
delete-append c [] t = refl
delete-append c (x ∷ s) t = ground (arith, delete-append c s t)

delete-join :
    (c : ℕ) (part : Text) (parts : List Text)
    → delete c (join (c ∷ []) (part ∷ parts)) ≡ delete c part ++ delete c (join (c ∷ []) parts)
unfolding join delete
delete-join c part [] = sym (append-nil (delete c part))
delete-join c part (next ∷ parts) =
    delete-append c part _ ∙ ap (λ t. delete c part ++ t) (ground arith)

delete-lines :
    (fuel : ℕ) (raw : Text)
    → length raw ≤ fuel
    → All IsPlain raw
    → delete b'\n' (join (b'\n' ∷ []) (lines fuel raw)) ≡ raw
unfolding lines
delete-lines zero [] p h = unfold join delete in refl
delete-lines zero (x ∷ raw) p h = absurd (omega arith)
delete-lines (suc fuel) [] p h = unfold join delete in refl
delete-lines (suc fuel) (c ∷ raw) p h =
    delete-join b'\n' (take 64 (c ∷ raw)) (lines fuel (drop 64 (c ∷ raw)))
    ∙ ap₂ (λ s t. s ++ t)
        (delete-plain b'\n' (take 64 (c ∷ raw)) (omega arith) (All-take IsPlain 64 (c ∷ raw) h))
        (delete-lines fuel (drop 64 (c ∷ raw)) (omega (arith, length-drop 64 (c ∷ raw)))
          (All-drop IsPlain 64 (c ∷ raw) h))
    ∙ take-append-drop 64 (c ∷ raw)

clean-encode : (d : Bytes) → clean (b64_encode d) ≡ standard_encode d
unfolding clean b64_encode
clean-encode d =
    let raw = standard_encode d in
    let plain : All IsPlain raw = standard_encode-IsPlain d in
    let unbroken : delete b'\n' (b64_encode d) ≡ raw =
      delete-append b'\n' (join (b'\n' ∷ []) (lines (length raw) raw)) (b'\n' ∷ [])
      ∙ append-nil (delete b'\n' (join (b'\n' ∷ []) (lines (length raw) raw)))
      ∙ delete-lines (length raw) raw (omega arith) plain in
    ap (λ s. delete b' ' (delete b'\r' s)) unbroken
    ∙ ap (λ s. delete b' ' s) (delete-plain b'\r' raw (omega arith) plain)
    ∙ delete-plain b' ' raw (omega arith) plain

-- Decoding the encoding of any bytes gives the bytes, across line breaks and padding.
pub b64_decode-encode : (d : Bytes) → IsBytes d → b64_decode (b64_encode d) ≡ some d
unfolding b64_decode standard_decode
b64_decode-encode d h =
    rw (clean-encode d) (rw (is_ascii-plain _ (standard_encode-IsPlain d)) (scan-encode d h))

lines-IsPlain : (fuel : ℕ) (raw : Text) → All IsPlain raw → All (All IsPlain) (lines fuel raw)
unfolding lines
lines-IsPlain zero raw h = tt
lines-IsPlain (suc fuel) [] h = tt
lines-IsPlain (suc fuel) (c ∷ raw) h = (
  All-take IsPlain 64 (c ∷ raw) h,
  lines-IsPlain fuel (drop 64 (c ∷ raw)) (All-drop IsPlain 64 (c ∷ raw) h),
)

-- A character that an encoded text may hold: one of the alphabet, padding, or a line end.
abbrev pub IsEncoded : ℕ → Type 0
IsEncoded c = (c ≤ 122)

pub b64_encode-IsEncoded : (d : Bytes) → All IsEncoded (b64_encode d)
unfolding b64_encode
b64_encode-IsEncoded d =
    let raw = standard_encode d in
    let parts = lines (length raw) raw in
    All-append IsEncoded (join (b'\n' ∷ []) parts) (b'\n' ∷ [])
      (All-join IsEncoded (b'\n' ∷ []) parts (omega arith) (
        All-imp (All IsPlain) (All IsEncoded) parts
          (λ part h. All-imp IsPlain IsEncoded part (λ c k. k.1) h)
          (lines-IsPlain (length raw) raw (standard_encode-IsPlain d))))
      (omega arith)
