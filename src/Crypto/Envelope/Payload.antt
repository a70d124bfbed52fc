-- ===== src/Crypto/Envelope/Payload.antt =====
-- What a signature over the payload of forwarder/app/crypto/envelope.py binds.
use jd_relay.Common.{
  ℕ, suc, ◌+◌, ◌≤◌, ◌≡◌, refl, sym, ap, ◌∙◌, ◌↔◌, List, [], ◌∷◌, ◌++◌, some, Text, text_eq,
  text_eq_iff, join, if◌then◌else◌, ◌==◌, arith, All, length,
}
use mathlib.Core.List.{append_assoc}
use jd_relay.Common.Int.{ℤ, pos, negsuc}
use jd_relay.Common.Decimal.{str, digits, digits-IsDigit, IsDigit, str-injective}
use jd_relay.Crypto.Envelope.{
  MessageType, build_trigger, type_value, message_types, find_type, parse, CryptoEnvelope,
  signed_fields, build_signing_payload,
}

find_type-value :
    (ms : List MessageType) (s : Text) (m : MessageType)
    → find_type ms s ≡ some m
    → s ≡ type_value m
unfolding find_type
find_type-value [] s m h = cc
find_type-value (k ∷ ms) s m h =
    ground (arith, text_eq_iff (type_value k) s, find_type-value ms s m)

parse-type_value : (m : MessageType) → parse (type_value m) ≡ some m
unfolding parse text_eq
parse-type_value build_trigger = refl
parse-type_value _ = refl

-- A string parses to a message type exactly if it is that type's value.
pub parse-iff-type_value : (s : Text) (m : MessageType) → (parse s ≡ some m) ↔ (s ≡ type_value m)
parse-iff-type_value s m =
    (unfold parse in find_type-value message_types s m, λ e. rw e (parse-type_value m))

-- How many separators a text holds.
abbrev pub bars : Text → ℕ
bars [] = 0
bars (c ∷ s) = if c == b'|' then suc (bars s) else bars s

bars-append : (s t : Text) → bars (s ++ t) ≡ bars s + bars t
bars-append [] t = omega arith
bars-append (c ∷ s) t = ground (arith, bars-append s t)

bars-digits : (s : Text) → All IsDigit s → bars s ≡ 0
bars-digits [] h = refl
bars-digits (c ∷ s) h = ground (arith, bars-digits s)

bars-str : (n : ℤ) → bars (str n) ≡ 0
unfolding str
bars-str (pos n) = bars-digits (digits n) (digits-IsDigit n)
bars-str (negsuc n) = bars-digits (digits (suc n)) (digits-IsDigit (suc n))

abbrev total_bars : List Text → ℕ
total_bars [] = 0
total_bars (part ∷ parts) = bars part + total_bars parts

bars-join :
    (part : Text) (parts : List Text)
    → bars (join (b'|' ∷ []) (part ∷ parts)) ≡ total_bars (part ∷ parts) + length parts
unfolding join
bars-join part [] = omega arith
bars-join part (next ∷ parts) =
    omega (arith, bars-append part (b'|' ∷ join (b'|' ∷ []) (next ∷ parts)), bars-join next parts)

cut :
    (s t : Text) {x y : Text}
    → bars s ≡ 0
    → bars t ≡ 0
    → s ++ b'|' ∷ x ≡ t ++ b'|' ∷ y
    → (s ≡ t) × (x ≡ y)
cut [] [] h k e = ground arith
cut [] (d ∷ t) h k e = ground arith
cut (c ∷ s) [] h k e = ground arith
cut (c ∷ s) (d ∷ t) {x} {y} h k e = ground (arith, cut s t {x = x} {y = y})

bars-cons : (c : ℕ) (s : Text) → bars s ≤ bars (c ∷ s)
bars-cons c s = ground arith

join-injective :
    (ps qs : List Text)
    → length ps ≡ length qs
    → total_bars ps ≡ 0
    → total_bars qs ≡ 0
    → join (b'|' ∷ []) ps ≡ join (b'|' ∷ []) qs
    → ps ≡ qs
unfolding join
join-injective [] [] l h k e = refl
join-injective [] (q ∷ qs) l h k e = absurd (omega arith)
join-injective (p ∷ ps) [] l h k e = absurd (omega arith)
join-injective (p ∷ []) (q ∷ []) l h k e = ap (λ s. s ∷ []) e
join-injective (p ∷ []) (q ∷ q' ∷ qs) l h k e = absurd (omega arith)
join-injective (p ∷ p' ∷ ps) (q ∷ []) l h k e = absurd (omega arith)
join-injective (p ∷ p' ∷ ps) (q ∷ q' ∷ qs) l h k e =
    let (heads, tails) = cut p q (omega arith) (omega arith) e in
    cc (heads, join-injective (p' ∷ ps) (q' ∷ qs) (omega arith) (omega arith) (omega arith) tails)

-- No signed field of the envelope holds a separator.
abbrev pub HasNoBars : CryptoEnvelope → Type 0
HasNoBars env = total_bars (signed_fields env) ≡ 0

bars-payload :
    (env : CryptoEnvelope) → bars (build_signing_payload env) ≡ total_bars (signed_fields env) + 6
unfolding build_signing_payload
bars-payload env =
    bars-join env.msg_id
      (str env.timestamp ∷ env.nonce ∷ env.type ∷ env.iv ∷ env.ciphertext ∷ env.tag ∷ [])

same_fields :
    (e f : CryptoEnvelope)
    → signed_fields e ≡ signed_fields f
    → record e { signature = f.signature } ≡ f
same_fields e f h = ground (arith, str-injective e.timestamp f.timestamp)

-- The payload of an envelope whose fields hold no '|' is the payload of no other envelope, whatever
-- that one's fields hold: the two agree in all but the signature.
pub payload_binds :
    (e f : CryptoEnvelope)
    → HasNoBars e
    → build_signing_payload e ≡ build_signing_payload f
    → record e { signature = f.signature } ≡ f
unfolding build_signing_payload
payload_binds e f h p =
    let counted : total_bars (signed_fields e) + 6 ≡ total_bars (signed_fields f) + 6 =
      sym (bars-payload e) ∙ ap bars p ∙ bars-payload f in
    same_fields e f (join-injective (signed_fields e) (signed_fields f) refl h (omega arith) p)

-- Without that condition a payload does not determine the envelope: a nonce that ends in a separator
-- and more text signs like the envelope in which the text stands in front of the type.
pub payload_ambiguous :
    (e : CryptoEnvelope) (more : Text)
    → build_signing_payload (record e { nonce = e.nonce ++ b'|' ∷ more })
      ≡ build_signing_payload (record e { type = more ++ b'|' ∷ e.type })
unfolding build_signing_payload join
payload_ambiguous e more = simp append_assoc
