-- ===== src/Ws/Server/Started.antt =====
-- The callback route of forwarder/app/api/dingtalk.py in an application that forwarder/app/ws/server.py
-- started.
use mathlib.Core.Path.{subst}
use jd_relay.Common.{ℕ, ◌≡◌, ◌⊎◌, inl, inr, Bool, true, Option, none, some, Text, Bytes, is_truthy}
use jd_relay.Common.Int.{ℤ}
use jd_relay.Common.Json.{Value, Document}
use jd_relay.DingTalk.{DingTalkService, new_service}
use jd_relay.DingTalk.Signature.{IsSigned}
use jd_relay.Approvals.{Database}
use jd_relay.Approvals.Callback.{dingtalk_callback}
use jd_relay.Approvals.Callback.Verified.{Finished, callback_moves_verified}
use jd_relay.Ws.Server.{ServerConfig, AppState, startup}

-- The service that a configuration asks for.
abbrev pub service_of : ServerConfig → DingTalkService
service_of config =
    new_service config.dingtalk_app_key config.dingtalk_app_secret config.dingtalk_agent_id

module _ {E S : Type 0} (create_engine : Text → Option E) (init_db : E → Bool) (a : AppState E S)
    (config : ServerConfig) where
  service_started :
      a.config ≡ some config
      → is_truthy config.dingtalk_app_key ≡ true
      → (startup create_engine init_db true a).dingtalk_service ≡ some (service_of config)
  unfolding startup
  service_started given keyed = simp (given, keyed)

  -- In an application that was started with a DingTalk key, a callback changes the database only if it
  -- is signed with the configured secret; it is then answered with success, and one order moved along an
  -- edge of the lifecycle with its pending approval, if it has one, answered. The SDK's clients could be
  -- made.
  pub started_callbacks-IsSigned :
      (column_text : Value → Text) (hmac : Bytes → Bytes → Bytes) (to_int : Text → Option ℤ)
      (db : Database) (timestamp nonce sign : Text) (clock : ℕ) (body : Option Document)
      (now now' : ℕ)
      → a.config ≡ some config
      → is_truthy config.dingtalk_app_key ≡ true
      → let svc = (startup create_engine init_db true a).dingtalk_service in
        let r =
          dingtalk_callback column_text hmac to_int svc db timestamp nonce sign clock body now
            now' in
        (r.1 ≡ db)
        ⊎ (IsSigned hmac to_int (service_of config) clock timestamp nonce sign
            × Finished column_text hmac to_int svc db timestamp nonce sign clock body now now' r)
  started_callbacks-IsSigned column_text hmac to_int db timestamp nonce sign clock body now now'
        given keyed =
      let svc = (startup create_engine init_db true a).dingtalk_service in
      let started : svc ≡ some (service_of config) = service_started given keyed in
      let absent : svc ≡ none → ⊥ = λ missing. cc in
      let configured : (s : DingTalkService) → svc ≡ some s → s ≡ service_of config =
        λ s found. cc in
      elim (callback_moves_verified column_text hmac to_int svc db timestamp nonce sign clock now
        now' body) [
          | inl same ↦ inl same
          | inr finished ↦ inr (
            elim finished.signed [
              | inl missing ↦ absurd (absent missing)
              | inr (s, found, signed) ↦
                  subst (λ x. IsSigned hmac to_int x clock timestamp nonce sign)
                    (configured s found) signed
            ],
            finished,
          )
        ]
