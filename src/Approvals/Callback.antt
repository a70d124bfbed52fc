-- ===== src/Approvals/Callback.antt =====
-- The routes of forwarder/app/api/dingtalk.py: the approval callback, the card callback and the
-- creation of an approval. An exception that leaves a route is `crashed`. `column_text` is what the
-- database compares for a `businessId` that is no string, and empty for one that counts as false.
pub mod Verified
use jd_relay.Common.{
  ℕ, ◌≡◌, refl, ◌⊎◌, inl, inr, Bool, true, false, not, ◌&&◌, ◌||◌, List, [], ◌∷◌, ◌++◌, Option,
  none, some, Text, Bytes, codes, text_eq, is_truthy, if◌then◌else◌, Bool-cases, Option-cases,
  arith,
}
use jd_relay.Common.Int.{ℤ}
use jd_relay.Common.Outcome.{Outcome, Outcome-cases, Exception, returned, raised, attribute_error}
use jd_relay.Common.Dict.{Dict, lookup}
use jd_relay.Common.Json.{Value, str, int, strs, other, Document, object, not_object, Json}
use jd_relay.DingTalk
use jd_relay.DingTalk.{DingTalkService, Sdk, verify_signature}
use jd_relay.DingTalk.Signature.{IsSigned, verify_signature-iff-IsSigned}
use jd_relay.Approvals.{Database, handle_approval_finish}
use jd_relay.Approvals.Finish.{Moves, IsAtomic, finish-IsAtomic}

pub data Reply : Type 0 where
  success : Reply
  http_error : ℕ → Reply
  crashed : Exception → Reply

-- A field of the body that is compared with a string.
abbrev pub field_text : Option Value → Text
field_text (some (str t)) = t
field_text _ = []

abbrev pub finish_reply : Outcome (Unit {0}) × Database → Reply × Database
finish_reply (returned u, db) = (success, db)
finish_reply (raised e, db) = (crashed e, db)

module _ (column_text : Value → Text) where
  abbrev pub biz_id_of : Option Value → Text
  biz_id_of none = []
  biz_id_of (some (str t)) = t
  biz_id_of (some v) = column_text v

  -- From the body on: only a FINISH event with an order number is acted on.
  unfoldable pub on_body : Database → Document → ℕ → ℕ → Reply × Database
  on_body db not_object now now' = (crashed attribute_error, db)
  on_body db (object body) now now' =
      let biz_id = biz_id_of (lookup (codes "businessId") body) in
      let result = field_text (lookup (codes "result") body) in
      if text_eq (field_text (lookup (codes "type") body)) (codes "FINISH") && is_truthy biz_id
      then finish_reply (handle_approval_finish db biz_id result now now')
      else (success, db)

  module _ (hmac : Bytes → Bytes → Bytes) (to_int : Text → Option ℤ) where
    abbrev pub if_verified : Outcome Bool → Database → Document → ℕ → ℕ → Reply × Database
    if_verified (raised e) db body now now' = (crashed e, db)
    if_verified (returned false) db body now now' = (http_error 401, db)
    if_verified (returned true) db body now now' = on_body db body now now'

    -- Without a service there is no verification.
    abbrev pub on_verified :
        Option DingTalkService
        → Database
        → Text
        → Text
        → Text
        → ℕ
        → Document
        → ℕ
        → ℕ
        → Reply × Database
    on_verified none db timestamp nonce sign clock body now now' = on_body db body now now'
    on_verified (some s) db timestamp nonce sign clock body now now' =
        if_verified (verify_signature hmac to_int s clock timestamp nonce sign) db body now now'

    -- The body is `none` where it is no JSON; the clock is read by the verification and by the two
    -- updates.
    unfoldable pub dingtalk_callback :
        Option DingTalkService
        → Database
        → Text
        → Text
        → Text
        → ℕ
        → Option Document
        → ℕ
        → ℕ
        → Reply × Database
    dingtalk_callback svc db timestamp nonce sign clock none now now' = (http_error 400, db)
    dingtalk_callback svc db timestamp nonce sign clock (some body) now now' =
        on_verified svc db timestamp nonce sign clock body now now'

-- The card callback reads its body and does nothing.
unfoldable pub dingtalk_card_callback : Option Document → Reply
dingtalk_card_callback none = http_error 400
dingtalk_card_callback (some body) = success

pub record ApprovalCreateRequest : Type 0 where
  pub work_order_id : Text
  pub issue : Text
  pub project : Text
  pub branch : Text
  pub build_cmd : Text

-- What the route reads of the configuration.
pub record ApprovalConfig : Type 0 where
  pub dingtalk_approvers : List Text
  pub dingtalk_process_code : Text
  pub dingtalk_originator : Text

pub data Created : Type 0 where
  initiated : Text → Created
  refused : ℕ → Created

abbrev pub no_texts : List Text → Bool
no_texts [] = true
no_texts (t ∷ ts) = false

abbrev pub request_form : ApprovalCreateRequest → List (Text × Text)
request_form req =
    (codes "工单编号", req.work_order_id)
    ∷ (codes "ISSUE", req.issue)
    ∷ (codes "项目", req.project)
    ∷ (codes "分支", req.branch)
    ∷ (codes "构建命令", req.build_cmd)
    ∷ []

abbrev pub request_title : ApprovalCreateRequest → Text
request_title req =
    codes "[JD-Relay] " ++ (req.issue ++ (codes " — " ++ (req.project ++ b'/' ∷ req.branch)))

module _ {W : Type 0} (sdk : Sdk W) where
  abbrev pub created : Outcome Text × DingTalkService × W → Created × Option DingTalkService × W
  created (returned instance_id, s, w) = (initiated instance_id, some s, w)
  created (raised e, s, w) = (refused 500, some s, w)

  unfoldable pub create_approval :
      Option DingTalkService
      → Option ApprovalConfig
      → ApprovalCreateRequest
      → ℕ
      → ℕ
      → ℕ
      → W
      → Created × Option DingTalkService × W
  create_approval none config req now now' now'' w = (refused 503, none, w)
  create_approval (some s) none req now now' now'' w = (refused 503, some s, w)
  create_approval (some s) (some config) req now now' now'' w =
      if no_texts config.dingtalk_approvers || not (is_truthy config.dingtalk_process_code)
      then (refused 503, some s, w)
      else created (
          DingTalk.create_approval sdk s now now' now'' config.dingtalk_originator
            config.dingtalk_process_code (request_title req) (request_form req)
            config.dingtalk_approvers w)
