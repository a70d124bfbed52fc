-- ===== src/Tests/Guards.antt =====
-- Concrete runs of the replay guard, the envelope, Base64 and the cipher.
use jd_relay.Common.{
  suc, ◌≡◌, ◌≤◌, refl, ◌⊎◌, true, false, [], ◌∷◌, some, Bytes, codes, text_eq, arith,
}
use jd_relay.Common.Int.{pos}
use jd_relay.Common.Dict.{lookup}
use jd_relay.Crypto.ReplayGuard.{
  ReplayGuard, is_within_window, is_replay, check_and_record, purge_expired, cache_size,
}
use jd_relay.Crypto.ReplayGuard.Cache.{check_and_record_size, IsPurged}
use jd_relay.Crypto.ReplayGuard.Replays.{
  Moment, here, next, purge, replay_rejected, replay_after_purge,
}
use jd_relay.Crypto.Envelope.{CryptoEnvelope, build_signing_payload}
use jd_relay.Crypto.Envelope.Payload.{payload_binds}
use jd_relay.Common.Decimal.{str, digits}
use jd_relay.Crypto.Base64.{b64_encode, b64_decode}
use jd_relay.Crypto.Base64.RoundTrip.{b64_decode-encode}
use jd_relay.Crypto.AesGcm
use jd_relay.Crypto.AesGcm.{AesGcmCipher, chosen_iv}
use jd_relay.Tests.Keys.{keys}

-- A window of ten seconds, and a cache that knows one nonce.
abbrev guard : ReplayGuard
guard = record { window_seconds = 10; nonces = (codes "n0", 20000) ∷ [] }

-- The guard after a first message, at 15 seconds.
abbrev seen_once : ReplayGuard
seen_once = (check_and_record guard 15000 15000 15000 (pos 14000) (codes "n1")).0

abbrev purged : Moment
purged = record { now = 24000; guard = purge_expired seen_once 24000 }

replay_rejected_example :
    check_and_record purged.guard 24000 24000 24000 (pos 14000) (codes "n1") ≡ (purged.guard, false)
unfolding check_and_record is_within_window is_replay lookup text_eq
replay_rejected_example =
    replay_rejected guard 15000 15000 15000 (pos 14000) (codes "n1") (omega arith) (omega arith)
      (omega arith) refl {m = purged} (next here (purge 24000 (omega arith))) 24000 24000 24000
      (omega arith)

-- A message from nine seconds ahead is accepted again at 27 seconds.
replay_after_purge_example :
    ((check_and_record guard 15000 15000 15000 (pos 24000) (codes "n1")).1 ≡ true)
    × ((check_and_record
          (purge_expired
            (check_and_record guard 15000 15000 15000 (pos 24000) (codes "n1")).0
            27000)
          27000
          27000
          27000
          (pos 24000)
          (codes "n1")).1
        ≡ true)
unfolding lookup text_eq cache_size
replay_after_purge_example =
    replay_after_purge guard 15000 27000 24000 (codes "n1") refl (omega arith) (omega arith)
      (omega arith) (omega arith) (omega arith)

check_and_record_size_example :
    (cache_size seen_once ≤ suc (cache_size guard))
    × (((check_and_record guard 15000 15000 15000 (pos 14000) (codes "n1")).1 ≡ false)
        ⊎ ((cache_size seen_once ≤ 10000) ⊎ IsPurged 15000 seen_once))
check_and_record_size_example =
    check_and_record_size guard 15000 15000 15000 (pos 14000) (codes "n1")

abbrev envelope : CryptoEnvelope
envelope = record {
  msg_id = codes "m-1";
  timestamp = pos 15000;
  nonce = codes "n1";
  type = codes "HEARTBEAT";
  iv = codes "iv";
  ciphertext = codes "ct";
  tag = codes "tag";
  signature = codes "s";
}

abbrev resigned : CryptoEnvelope
resigned = record envelope { signature = codes "t" }

payload_binds_example : record envelope { signature = resigned.signature } ≡ resigned
unfolding str digits build_signing_payload
payload_binds_example = payload_binds envelope resigned refl refl

b64_decode-encode_example : b64_decode (b64_encode (codes "hello")) ≡ some (codes "hello")
b64_decode-encode_example = b64_decode-encode (codes "hello") (omega arith)

abbrev cipher : AesGcmCipher
cipher = record { key = codes "0123456789abcdef0123456789abcdef" }

abbrev iv : Bytes
iv = codes "twelve bytes"

abbrev sealed : AesGcm.EncryptResult
sealed = AesGcm.encrypt keys cipher (codes "build") (some iv) []
