-- ===== src/Tests/Callbacks.antt =====
-- Concrete runs of the DingTalk service and of the approval callback.
use jd_relay.Common.{
  ◌≡◌, ◌↔◌, ◌⊎◌, refl, true, false, [], ◌∷◌, ◌++◌, ◌+◌, if◌then◌else◌, Option, none, some, ℕ, Text,
  Bytes, text_eq, codes, arith, map,
}
use jd_relay.Common.Int.{ℤ, pos}
use jd_relay.Common.Outcome.{returned}
use jd_relay.Common.Json.{Document, object, str}
use jd_relay.Crypto.Base64.{standard_encode}
use jd_relay.DingTalk.{DingTalkService, Sdk, new_service, cached_token, verify_signature}
use jd_relay.DingTalk.Token.{serve_waiters, one_fetch}
use jd_relay.DingTalk.Signature.{IsSigned, verify_signature-iff-IsSigned}
use jd_relay.Approvals.{Database}
use jd_relay.Approvals.Callback.{Reply, dingtalk_callback}
use jd_relay.Approvals.Callback.Verified.{Finished, callback_moves_verified}
use jd_relay.Ws.Server.{ServerConfig, new_state, startup}
use jd_relay.Ws.Server.Started.{service_of, started_callbacks-IsSigned}
use jd_relay.Tests.Orders.{database, pending}

-- The world counts the calls; a token lasts ten minutes.
abbrev sdk : Sdk ℕ
sdk = record {
  oauth = λ key secret calls. (some (codes "token", some 600), calls + 1);
  start = λ token request calls. (some (codes "instance"), calls + 1);
  get = λ token id calls. (none, calls + 1);
  send = λ token message calls. (none, calls + 1);
}

abbrev service : DingTalkService
service = new_service (codes "key") (codes "secret") (pos 1)

one_fetch_example :
    serve_waiters sdk service ((1000, 1200) ∷ (1300, 1400) ∷ (1500, 1500) ∷ []) 0 ≡ (
      map {A = ℕ × ℕ}
          (λ t. returned (codes "token"))
          ((1000, 1200) ∷ (1300, 1400) ∷ (1500, 1500) ∷ []),
      record service { access_token = some (codes "token"); token_expires_at = 601200 },
      1,
    )
unfolding cached_token
one_fetch_example =
    one_fetch sdk service 1000 1200 ((1300, 1400) ∷ (1500, 1500) ∷ []) (codes "token") (some 600) 0
      1 refl refl refl (omega arith)

-- A digest that is the message, and a reading of numbers that knows one.
abbrev hmac : Bytes → Bytes → Bytes
hmac key message = message

abbrev to_int : Text → Option ℤ
to_int t = if text_eq t (codes "1000") then some (pos 1000) else none

verify_signature-iff-IsSigned_example :
    (verify_signature hmac to_int service 2000
        (codes "1000")
        (codes "n")
        (standard_encode (codes "1000" ++ b'\n' ∷ codes "n"))
      ≡ returned true)
    ↔ IsSigned hmac to_int service 2000
        (codes "1000")
        (codes "n")
        (standard_encode (codes "1000" ++ b'\n' ∷ codes "n"))
verify_signature-iff-IsSigned_example =
    verify_signature-iff-IsSigned hmac to_int service 2000 (codes "1000") (codes "n")
      (standard_encode (codes "1000" ++ b'\n' ∷ codes "n"))

-- A FINISH event for the order that waits in the database.
abbrev finish : Document
finish = object (
    (codes "type", str (codes "FINISH"))
    ∷ (codes "businessId", str (codes "WO-1"))
    ∷ (codes "result", str (codes "agree"))
    ∷ [])

abbrev answered : Reply × Database
answered =
    dingtalk_callback (λ v. []) hmac to_int (some service) (database (pending 5 ∷ []))
      (codes "1000") (codes "n") (standard_encode (codes "1000" ++ b'\n' ∷ codes "n")) 2000
      (some finish) 20 21

callback_moves_verified_example :
    (answered.1 ≡ database (pending 5 ∷ []))
    ⊎ Finished
        (λ v. [])
        hmac
        to_int
        (some service)
        (database (pending 5 ∷ []))
        (codes "1000")
        (codes "n")
        (standard_encode (codes "1000" ++ b'\n' ∷ codes "n"))
        2000
        (some finish)
        20
        21
        answered
callback_moves_verified_example =
    callback_moves_verified (λ v. []) hmac to_int (some service) (database (pending 5 ∷ []))
      (codes "1000") (codes "n") (standard_encode (codes "1000" ++ b'\n' ∷ codes "n")) 2000 20 21
      (some finish)

-- An application that was started with the service's key and secret.
abbrev server_config : ServerConfig
server_config = record {
  mysql_url = codes "mysql://db";
  dingtalk_app_key = codes "key";
  dingtalk_app_secret = codes "secret";
  dingtalk_agent_id = pos 1;
}

abbrev answered_by_app : Reply × Database
answered_by_app =
    dingtalk_callback (λ v. []) hmac to_int
      (startup {E = ℕ} {S = ℕ} (λ url. some 1) (λ engine. false) true
        (new_state (some server_config))).dingtalk_service
      (database (pending 5 ∷ [])) (codes "1000") (codes "n")
      (standard_encode (codes "1000" ++ b'\n' ∷ codes "n")) 2000 (some finish) 20 21

started_callbacks-IsSigned_example :
    (answered_by_app.1 ≡ database (pending 5 ∷ []))
    ⊎ (IsSigned hmac to_int
          (service_of server_config)
          2000
          (codes "1000")
          (codes "n")
          (standard_encode (codes "1000" ++ b'\n' ∷ codes "n"))
        × Finished
            (λ v. [])
            hmac
            to_int
            (startup {E = ℕ} {S = ℕ}
              (λ url. some 1)
              (λ engine. false)
              true
              (new_state (some server_config))).dingtalk_service
            (database (pending 5 ∷ []))
            (codes "1000")
            (codes "n")
            (standard_encode (codes "1000" ++ b'\n' ∷ codes "n"))
            2000
            (some finish)
            20
            21
            answered_by_app)
started_callbacks-IsSigned_example =
    started_callbacks-IsSigned {E = ℕ} {S = ℕ} (λ url. some 1) (λ engine. false)
      (new_state (some server_config)) server_config (λ v. []) hmac to_int
      (database (pending 5 ∷ [])) (codes "1000") (codes "n")
      (standard_encode (codes "1000" ++ b'\n' ∷ codes "n")) 2000 (some finish) 20 21 refl refl
