-- ===== src/Approvals/Callback/Verified.antt =====
-- Which callbacks of forwarder/app/api/dingtalk.py change the database.
use jd_relay.Common.{
  ℕ, ◌≡◌, refl, ap, ◌⊎◌, inl, inr, Bool, true, false, Option, none, some, Text, Bytes, codes,
  text_eq, is_truthy, Bool-cases, Option-cases,
}
use jd_relay.Common.Int.{ℤ}
use jd_relay.Common.Outcome.{Outcome, returned, raised}
use jd_relay.Common.Dict.{Dict, lookup}
use jd_relay.Common.Json.{Value, Document, object, not_object}
use jd_relay.DingTalk.{DingTalkService, verify_signature}
use jd_relay.DingTalk.Signature.{IsSigned, verify_signature-iff-IsSigned}
use jd_relay.Approvals.{Database, handle_approval_finish}
use jd_relay.Approvals.Finish.{Moves, IsAtomic, finish-IsAtomic}
use jd_relay.Approvals.Callback.{
  Reply, success, field_text, finish_reply, biz_id_of, on_body, if_verified, on_verified,
  dingtalk_callback,
}

-- A callback that changed the database: it was answered with success, it was signed where a service
-- is configured, and it was a FINISH event for the order that moved.
pub record Finished (column_text : Value → Text) (hmac : Bytes → Bytes → Bytes)
    (to_int : Text → Option ℤ) (svc : Option DingTalkService) (db : Database)
    (timestamp nonce sign : Text) (clock : ℕ) (body : Option Document) (now now' : ℕ)
    (r : Reply × Database) : Type 0 where
  pub fields : Dict Value
  pub read : body ≡ some (object fields)
  pub answered : r.0 ≡ success
  pub signed :
      (svc ≡ none)
      ⊎ ((s : DingTalkService) × (svc ≡ some s) × IsSigned hmac to_int s clock timestamp nonce sign)
  pub event : text_eq (field_text (lookup (codes "type") fields)) (codes "FINISH") ≡ true
  pub moves :
      Moves db
        (biz_id_of column_text (lookup (codes "businessId") fields))
        (field_text (lookup (codes "result") fields))
        now
        now'
        r.1

module _ (column_text : Value → Text) (hmac : Bytes → Bytes → Bytes) (to_int : Text → Option ℤ)
    (svc : Option DingTalkService) (db : Database) (timestamp nonce sign : Text) (clock : ℕ)
    (now now' : ℕ) where
  abbrev Outcomes : Option Document → Reply × Database → Type 0
  Outcomes body r =
      (r.1 ≡ db)
      ⊎ Finished column_text hmac to_int svc db timestamp nonce sign clock body now now' r

  abbrev Trusted : Type 0
  Trusted =
      (svc ≡ none)
      ⊎ ((s : DingTalkService) × (svc ≡ some s) × IsSigned hmac to_int s clock timestamp nonce sign)

  finish_reply-cases :
      (fields : Dict Value)
      → Trusted
      → text_eq (field_text (lookup (codes "type") fields)) (codes "FINISH") ≡ true
      → (r : Outcome (Unit {0}) × Database)
      → IsAtomic db
          (biz_id_of column_text (lookup (codes "businessId") fields))
          (field_text (lookup (codes "result") fields))
          now
          now'
          r
      → Outcomes (some (object fields)) (finish_reply r)
  finish_reply-cases fields trust event (raised e, db') (inl same) = inl same
  finish_reply-cases fields trust event (raised e, db') (inr (ok, m)) = absurd (cc ok)
  finish_reply-cases fields trust event (returned u, db') (inl same) = inl same
  finish_reply-cases fields trust event (returned u, db') (inr (ok, m)) = inr (record {
    fields = fields;
    read = refl;
    answered = refl;
    signed = trust;
    event = event;
    moves = m;
  })

  on_body-cases :
      (body : Document) → Trusted → Outcomes (some body) (on_body column_text db body now now')
  unfolding on_body
  on_body-cases not_object trust = inl refl
  on_body-cases (object fields) trust =
      let biz_id = biz_id_of column_text (lookup (codes "businessId") fields) in
      let result = field_text (lookup (codes "result") fields) in
      elim (Bool-cases (text_eq (field_text (lookup (codes "type") fields)) (codes "FINISH"))) [
        | inr n ↦ rw n (inl refl)
        | inl event ↦ elim (Bool-cases (is_truthy biz_id)) [
          | inr n ↦ rw (event, n) (inl refl)
          | inl n ↦
              rw (event, n)
                (finish_reply-cases fields trust event
                  (handle_approval_finish db biz_id result now now')
                  (finish-IsAtomic db biz_id result now now'))
        ]
      ]

  -- The route, at the section's request.
  abbrev reply : Option Document → Reply × Database
  reply body =
      dingtalk_callback column_text hmac to_int svc db timestamp nonce sign clock body now now'

  unverified :
      (body : Document) → svc ≡ none → reply (some body) ≡ on_body column_text db body now now'
  unfolding dingtalk_callback
  unverified body e =
      ap (λ x. on_verified column_text hmac to_int x db timestamp nonce sign clock body now now') e

  checked :
      (body : Document) (s : DingTalkService)
      → svc ≡ some s
      → reply (some body)
        ≡ if_verified column_text hmac to_int
            (verify_signature hmac to_int s clock timestamp nonce sign)
            db
            body
            now
            now'
  unfolding dingtalk_callback
  checked body s e =
      ap (λ x. on_verified column_text hmac to_int x db timestamp nonce sign clock body now now') e

  verified-cases :
      (body : Document) (s : DingTalkService) (o : Outcome Bool)
      → svc ≡ some s
      → verify_signature hmac to_int s clock timestamp nonce sign ≡ o
      → Outcomes (some body) (if_verified column_text hmac to_int o db body now now')
  verified-cases body s (raised x) e v = inl refl
  verified-cases body s (returned false) e v = inl refl
  verified-cases body s (returned true) e v =
      on_body-cases body
        (inr (s, e, (verify_signature-iff-IsSigned hmac to_int s clock timestamp nonce sign).0 v))

  -- A callback leaves the database as it was, or it is a FINISH event in a JSON object, signed where
  -- a DingTalk service is configured, and is answered with success, and one order moved along an edge
  -- of the lifecycle with its pending approval, if it has one, answered.
  pub callback_moves_verified :
      (body : Option Document)
      → ((reply body).1 ≡ db)
        ⊎ Finished column_text hmac to_int svc db timestamp nonce sign clock body now now'
            (reply body)
  unfolding dingtalk_callback
  callback_moves_verified none = inl refl
  callback_moves_verified (some body) = elim (Option-cases svc) [
    | inl e ↦ rw (unverified body e) (on_body-cases body (inl e))
    | inr (s, e) ↦
        rw (checked body s e)
          (verified-cases body s (verify_signature hmac to_int s clock timestamp nonce sign) e refl)
  ]
