-- ===== src/Crypto/Envelope.antt =====
-- Message types, the envelope and its signing payload, forwarder/app/crypto/envelope.py. A
-- ValueError of `MessageType.parse` is `none`.
pub mod Payload
use jd_relay.Common.{
  ℕ, Bool, List, [], ◌∷◌, Option, none, some, Text, codes, text_eq, join, if◌then◌else◌,
}
use jd_relay.Common.Int.{ℤ}
use jd_relay.Common.Decimal.{str}

pub data MessageType : Type 0 where
  build_trigger build_result sensitive_review_req second_review_result heartbeat ack : MessageType

-- The enum's values.
unfoldable pub type_value : MessageType → Text
type_value build_trigger = codes "BUILD_TRIGGER"
type_value build_result = codes "BUILD_RESULT"
type_value sensitive_review_req = codes "SENSITIVE_REVIEW_REQ"
type_value second_review_result = codes "SECOND_REVIEW_RESULT"
type_value heartbeat = codes "HEARTBEAT"
type_value ack = codes "ACK"

abbrev pub message_types : List MessageType
message_types =
    build_trigger ∷ build_result ∷ sensitive_review_req ∷ second_review_result ∷ heartbeat ∷ ack
    ∷ []

-- The loop of `parse` over the members.
find_type : List MessageType → Text → Option MessageType
find_type [] s = none
find_type (member ∷ members) s =
    if text_eq (type_value member) s then some member else find_type members s

unfoldable pub parse : Text → Option MessageType
unfolding find_type type_value
parse s = find_type message_types s

pub record CryptoEnvelope : Type 0 where
  pub msg_id : Text
  pub timestamp : ℤ
  pub nonce : Text
  pub type : Text
  pub iv : Text
  pub ciphertext : Text
  pub tag : Text
  pub signature : Text

unfoldable pub msg_type : CryptoEnvelope → Option MessageType
unfolding parse
msg_type env = parse env.type

-- The fields that are signed, in their order.
abbrev pub signed_fields : CryptoEnvelope → List Text
signed_fields env =
    env.msg_id ∷ str env.timestamp ∷ env.nonce ∷ env.type ∷ env.iv ∷ env.ciphertext ∷ env.tag ∷ []

unfoldable pub build_signing_payload : CryptoEnvelope → Text
unfolding join
build_signing_payload env = join (b'|' ∷ []) (signed_fields env)
