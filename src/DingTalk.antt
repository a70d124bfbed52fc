-- ===== src/DingTalk.antt =====
-- The DingTalk service, forwarder/app/services/dingtalk.py. The SDK's calls are a record of functions on
-- a world, and `none` is a call that raises; every exception of a method is a DingTalkError, which
-- stands as `library_error`. Times are in milliseconds. `await` lets other tasks run: what holds while
-- the token lock is held is a function of the state at that moment.
pub mod Token
pub mod Signature
use jd_relay.Common.{
  is_ascii, ℕ, ◌+◌, ◌-◌, ◌*◌, Bool, true, false, not, ◌&&◌, List, [], ◌∷◌, ◌++◌, map, Option, none,
  some, Text, Bytes, codes, text_eq, is_truthy, if◌then◌else◌, ltb, ◌==◌,
}
use jd_relay.Common.Int.{ℤ, pos, negsuc}
use jd_relay.Common.Outcome.{
  Outcome, returned, raised, library_error, unicode_error, type_error, ◌>>=◌, or_raise,
}
use jd_relay.Common.Json.{str, Json}
use jd_relay.Common.Utf8.{utf8_encode}
use jd_relay.Crypto.Base64.{standard_encode}

pub record StartRequest : Type 0 where
  pub originator_user_id : Text
  pub process_code : Text
  pub dept_id : ℤ
  pub micro_app_agent_id : ℤ
  pub form_component_values : List (Text × Text)
  -- nodes: how a node's users act, and who they are
  pub approvers : List (Text × List Text)
  pub title : Text

pub record Instance : Type 0 where
  pub status : Text
  pub result : Text
  pub business_id : Text
  pub title : Text

pub record BatchSend : Type 0 where
  pub robot_code : Text
  pub user_ids : List Text
  pub msg_key : Text
  pub msg_param : Text

-- `oauth` gives a token and how many seconds it lasts; `get` says whether it succeeded.
pub record Sdk (W : Type 0) : Type 0 where
  pub oauth : Text → Text → W → Option (Text × Option ℕ) × W
  pub start : Text → StartRequest → W → Option Text × W
  pub get : Text → Text → W → Option (Bool × Instance) × W
  pub send : Text → BatchSend → W → Option (Option Text) × W

pub record DingTalkService : Type 0 where
  pub app_key : Text
  pub app_secret : Text
  pub agent_id : ℤ
  pub access_token : Option Text
  pub token_expires_at : ℕ

abbrev pub new_service : Text → Text → ℤ → DingTalkService
new_service app_key app_secret agent_id = record {
  app_key = app_key;
  app_secret = app_secret;
  agent_id = agent_id;
  access_token = none;
  token_expires_at = 0;
}

abbrev pub truthy_token : Option Text → Option Text
truthy_token none = none
truthy_token (some token) = if is_truthy token then some token else none

-- The cached token, if it is not within five minutes of its expiry.
unfoldable pub cached_token : DingTalkService → ℕ → Option Text
cached_token s now =
    if ltb (now + 300000) s.token_expires_at then truthy_token s.access_token else none

-- `expire_in or 7200`
abbrev pub lifetime : Option ℕ → ℕ
lifetime none = 7200
lifetime (some seconds) = if seconds == 0 then 7200 else seconds

module _ {W : Type 0} (sdk : Sdk W) where
  -- What a fetch gives; the clock is read after it.
  abbrev pub store_token :
      DingTalkService → ℕ → Option (Text × Option ℕ) × W → Outcome Text × DingTalkService × W
  store_token s now (none, w) = (raised library_error, s, w)
  store_token s now (some (token, expire_in), w) = (
    returned token,
    record s { access_token = some token; token_expires_at = now + lifetime expire_in * 1000 },
    w,
  )

  abbrev pub or_fetch : Option Text → DingTalkService → ℕ → W → Outcome Text × DingTalkService × W
  or_fetch (some token) s now w = (returned token, s, w)
  or_fetch none s now w = store_token s now (sdk.oauth s.app_key s.app_secret w)

  -- What is done while the lock is held: the second check, at `now`, and the fetch, which ends at
  -- `now'`.
  unfoldable pub locked_token : DingTalkService → ℕ → ℕ → W → Outcome Text × DingTalkService × W
  locked_token s now now' w = or_fetch (cached_token s now) s now' w

  abbrev pub or_locked :
      Option Text → DingTalkService → ℕ → ℕ → W → Outcome Text × DingTalkService × W
  or_locked (some token) s now now' w = (returned token, s, w)
  or_locked none s now now' w = locked_token s now now' w

  -- A call that no other task interrupts: the first check at `now`.
  unfoldable pub get_access_token :
      DingTalkService → ℕ → ℕ → ℕ → W → Outcome Text × DingTalkService × W
  unfolding cached_token
  get_access_token s now now' now'' w = or_locked (cached_token s now) s now' now'' w

  -- A method's call with the token, which changes the world alone.
  abbrev pub with_token {ℓ} :
      {A : Type ℓ}
      → Outcome Text × DingTalkService × W
      → (Text → W → Outcome A × W)
      → Outcome A × DingTalkService × W
  with_token (raised e, s, w) call = (raised e, s, w)
  with_token (returned token, s, w) call = let r = call token w in (r.0, s, r.1)

  abbrev pub started : Option Text × W → Outcome Text × W
  started r = (or_raise library_error r.0, r.1)

  unfoldable pub create_approval :
      DingTalkService
      → ℕ
      → ℕ
      → ℕ
      → Text
      → Text
      → Text
      → List (Text × Text)
      → List Text
      → W
      → Outcome Text × DingTalkService × W
  create_approval s now now' now'' originator_user_id process_code title form_values approvers w =
      with_token (get_access_token s now now' now'' w) λ token w'. started (
        sdk.start token
          (record {
            originator_user_id = originator_user_id;
            process_code = process_code;
            dept_id = negsuc 0;
            micro_app_agent_id = s.agent_id;
            form_component_values = form_values;
            approvers = (codes "SEQUENTIAL", approvers) ∷ [];
            title = title;
          })
          w')

  -- A response that says that it failed raises as a call that raises does.
  abbrev pub queried : Option (Bool × Instance) × W → Outcome Instance × W
  queried (none, w) = (raised library_error, w)
  queried (some (success, i), w) = ((if success then returned i else raised library_error), w)

  unfoldable pub get_approval :
      DingTalkService → ℕ → ℕ → ℕ → Text → W → Outcome Instance × DingTalkService × W
  get_approval s now now' now'' instance_id w =
      with_token (get_access_token s now now' now'' w)
        λ token w'. queried (sdk.get token instance_id w')

  -- A notification that raises is logged, and answers False.
  abbrev pub notified : Option (Option Text) × W → Outcome Bool × W
  notified (none, w) = (returned false, w)
  notified (some none, w) = (returned false, w)
  notified (some (some key), w) = (returned (is_truthy key), w)

  unfoldable pub send_notification :
      Json
      → DingTalkService
      → ℕ
      → ℕ
      → ℕ
      → List Text
      → Text
      → Text
      → W
      → Outcome Bool × DingTalkService × W
  send_notification J s now now' now'' user_ids title content w =
      with_token (get_access_token s now now' now'' w) λ token w'. notified (
        sdk.send token
          (record {
            robot_code = s.app_key;
            user_ids = user_ids;
            msg_key = codes "sampleMarkdown";
            msg_param = J.dumps ((codes "title", str title) ∷ (codes "text", str content) ∷ []);
          })
          w')

-- abs(now - ts)
abbrev pub distance : ℕ → ℤ → ℕ
distance now (pos ts) = now - ts + (ts - now)
distance now (negsuc n) = now + n + 1

-- `hmac.compare_digest` on strings, which raises on characters outside ASCII.
unfoldable pub compare_digest : Text → Text → Outcome Bool
compare_digest a b = if is_ascii a && is_ascii b then returned (text_eq a b) else raised type_error

-- `hmac` is HMAC-SHA256 of key and message, `to_int` Python's `int` on a string.
module _ (hmac : Bytes → Bytes → Bytes) (to_int : Text → Option ℤ) where
  abbrev pub is_recent : ℕ → Option ℤ → Bool
  is_recent now none = false
  is_recent now (some ts) = not (ltb 300000 (distance now ts))

  unfoldable pub verify_signature : DingTalkService → ℕ → Text → Text → Text → Outcome Bool
  unfolding compare_digest
  verify_signature s now timestamp nonce signature =
      if not (is_truthy s.app_secret)
      then returned false
      else if not (is_recent now (to_int timestamp))
      then returned false
      else (do
        secret ← or_raise unicode_error (utf8_encode s.app_secret)
        message ← or_raise unicode_error (utf8_encode (timestamp ++ b'\n' ∷ nonce))
        compare_digest (standard_encode (hmac secret message)) signature)
