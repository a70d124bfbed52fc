-- ===== src/Ws/Server.antt =====
-- The application of forwarder/app/ws/server.py: what it sets up, its routes for agents and builds, and
-- its end. `E` is the database's engine, and a session factory is the engine that its sessions use;
-- `create_engine` raises where it answers `none`, `init_db` where it
-- answers `false`, and so does `sdk_ready` for the clients of the DingTalk SDK.
pub mod Delivery
pub mod Started
pub mod Shutdown
use jd_relay.Common.{
  ℕ, Bool, true, false, List, Option, none, some, Text, codes, is_truthy, length, if◌then◌else◌,
}
use jd_relay.Common.Dict.{Dict}
use jd_relay.Common.Int.{ℤ}
use jd_relay.Common.Json.{Value, Json}
use jd_relay.Crypto.Envelope.{MessageType, build_trigger}
use jd_relay.DingTalk.{DingTalkService, new_service}
use jd_relay.Crypto.Primitives.{Primitives, KeyExchange}
use jd_relay.Ws.Handshake.Answer.{KeyFiles}
use jd_relay.Ws.AgentHandler.{Callbacks, Event, handle_agent_connection}
use jd_relay.Ws.AgentManager
use jd_relay.Ws.AgentManager.{AgentManager, new_manager, count, stop_all}

-- What the server reads of the configuration.
pub record ServerConfig : Type 0 where
  pub mysql_url : Text
  pub dingtalk_app_key : Text
  pub dingtalk_app_secret : Text
  pub dingtalk_agent_id : ℤ

-- `app.state`, with the server's registry and the session factory of the module database.
pub record AppState (E S : Type 0) : Type 0 where
  pub config : Option ServerConfig
  pub manager : AgentManager S
  pub session_factory : Option E
  pub db_engine : Option E
  pub dingtalk_service : Option DingTalkService

pub record Health : Type 0 where
  pub status : Text
  pub agents : ℕ
  pub version : Text

abbrev pub initialized : {E : Type 0} → (E → Bool) → Option E → Option E
initialized init_db none = none
initialized init_db (some engine) = if init_db engine then some engine else none

abbrev pub open_database :
    {E : Type 0} → (Text → Option E) → (E → Bool) → Option ServerConfig → Option E
open_database create_engine init_db none = none
open_database create_engine init_db (some config) =
    if is_truthy config.mysql_url
    then initialized init_db (create_engine config.mysql_url)
    else none

abbrev newer : {E : Type 0} → Option E → Option E → Option E
newer none old = old
newer (some engine) old = some engine

-- The global session factory is set before the tables are created, and stays where that fails.
abbrev pub made_factory :
    {E : Type 0} → (Text → Option E) → Option ServerConfig → Option E → Option E
made_factory create_engine none old = old
made_factory create_engine (some config) old =
    if is_truthy config.mysql_url then newer (create_engine config.mysql_url) old else old

abbrev pub open_dingtalk : Bool → Option ServerConfig → Option DingTalkService
open_dingtalk sdk_ready none = none
open_dingtalk false (some config) = none
open_dingtalk true (some config) =
    if is_truthy config.dingtalk_app_key
    then some
        (new_service config.dingtalk_app_key config.dingtalk_app_secret config.dingtalk_agent_id)
    else none

module _ {E S : Type 0} where
  abbrev pub new_state : Option ServerConfig → AppState E S
  new_state config = record {
    config = config;
    manager = new_manager;
    session_factory = none;
    db_engine = none;
    dingtalk_service = none;
  }

  -- The application's life up to `yield`. What fails is logged, and the start goes on.
  unfoldable pub startup : (Text → Option E) → (E → Bool) → Bool → AppState E S → AppState E S
  startup create_engine init_db sdk_ready a = record a {
    session_factory = made_factory create_engine a.config a.session_factory;
    db_engine = open_database create_engine init_db a.config;
    dingtalk_service = open_dingtalk sdk_ready a.config;
  }

  -- After it; disposing of the engine is the database's.
  unfoldable pub shutdown : AppState E S → AppState E S
  shutdown a = record a { manager = stop_all a.manager }

  unfoldable pub health : AppState E S → Health
  health a = record { status = codes "ok"; agents = count a.manager; version = codes "3.0.0" }

  -- The agents and their number.
  unfoldable pub list_agents_api : AppState E S → List Text × ℕ
  list_agents_api a = let agents = AgentManager.list_agents a.manager in (agents, length agents)

  module _ {W : Type 0} (call : S → MessageType → Text → W → Bool × W) where
    unfoldable pub send_to_agent : AppState E S → Text → MessageType → Text → W → Bool × W
    send_to_agent a agent_id msg_type payload w =
        AgentManager.send_to_agent call a.manager agent_id msg_type payload w

    unfoldable pub send_to_project : AppState E S → Text → MessageType → Text → W → Bool × W
    send_to_project a project msg_type payload w =
        AgentManager.send_to_project call a.manager project msg_type payload w

    -- The project that the trigger was sent to, or `none` for the answer 404.
    unfoldable pub trigger_build_api : Json → AppState E S → Text → Dict Value → W → Option Text × W
    unfolding send_to_project
    trigger_build_api J a project payload w =
        let r = send_to_project a project build_trigger (J.dumps payload) w in
        ((if r.0 then some project else none), r.1)

-- The agents' endpoint: one connection, with the server's registry, callbacks and key files.
module _ (J : Json) (P : Primitives) (X : KeyExchange P) (show : Value → Text) {E S W : Type 0}
    (cb : Callbacks W) (files : KeyFiles) where
  unfoldable pub agent_ws :
      P.PrivateKey → ℕ → Option Text → AppState E S → S → ℕ → List (Event S) → W → AppState E S × W
  agent_ws ecdh seed opening a send now events w =
      let r =
        handle_agent_connection J P cb X show files ecdh seed opening a.manager send now events w in
      (record a { manager = r.0 }, r.1)
