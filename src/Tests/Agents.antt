-- ===== src/Tests/Agents.antt =====
-- Concrete runs of the agent registry, of the frame codec and of the opening message.
use jd_relay.Common.{◌↔◌, ℕ, ◌≡◌, refl, List, [], ◌∷◌, ◌++◌, some, Bytes, Text, false, codes, arith}
use jd_relay.Common.Dict.{Dict}
use jd_relay.Common.Outcome.{returned}
use jd_relay.Ws.Handshake
use jd_relay.Ws.Handshake.{
  HandshakeInit, IsInit, parse_handshake_init, parse_handshake_init-iff-IsInit,
}
use jd_relay.Common.Json.{Value, str, strs}
use jd_relay.Tests.Wire.{wire}
use jd_relay.Ws.AgentManager.{AgentManager, new_manager, get_by_agent, get_by_project}
use jd_relay.Ws.AgentManager.Registry.{Op, add, drop, IsWellFormed, run, manager-IsWellFormed}
use jd_relay.Ws.AgentManager.Refinement.{follow, nobody, reached, registry_refines}
use jd_relay.Ws.RawWs.{text, encode_frame, decode_frame}
use jd_relay.Ws.RawWs.Frames.{client_frame, decode_frame-encode_frame}

-- A connection is a number; one agent serves two projects, another one serves one.
abbrev connections : List (Op ℕ)
connections =
    add (codes "a") (codes "relay" ∷ codes "web" ∷ []) 1 100
    ∷ add (codes "b") (codes "docs" ∷ []) 2 101
    ∷ []

abbrev connected : AgentManager ℕ
connected = run new_manager connections

manager-IsWellFormed_example : IsWellFormed connected
manager-IsWellFormed_example = manager-IsWellFormed connections

-- The first agent leaves, and the second one connects again.
abbrev later : List (Op ℕ)
later = connections ++ (drop (codes "a") ∷ add (codes "b") (codes "web" ∷ []) 3 102 ∷ [])

registry_refines_example :
    ((a : Text) → get_by_agent (run new_manager later) a ≡ (follow later (nobody false)).info a)
    × ((p : Text)
        → get_by_project (run new_manager later) p ≡ reached (follow later (nobody false)) p)
    × ((run new_manager later).stopped ≡ (follow later (nobody false)).is_closed)
registry_refines_example = registry_refines later

abbrev mask_key : Bytes
mask_key = 1 ∷ 2 ∷ 3 ∷ 255 ∷ []

decode_frame-encode_frame_example :
    (decode_frame (encode_frame (codes "hello") text ++ 7 ∷ [])
      ≡ returned (some (text, codes "hello")))
    × (decode_frame (client_frame mask_key (codes "hello") text ++ 7 ∷ [])
        ≡ returned (some (text, codes "hello")))
decode_frame-encode_frame_example =
    decode_frame-encode_frame mask_key (codes "hello") text (7 ∷ []) (omega arith) refl
      (omega arith) (omega arith)

abbrev opening : Dict Value
opening =
    (codes "type", str (codes "HANDSHAKE_INIT"))
    ∷ (codes "agent_id", str (codes "a"))
    ∷ (codes "projects", strs (codes "relay" ∷ []))
    ∷ (codes "ecdh_pub_pem", str (codes "P"))
    ∷ (codes "ecdsa_pub_pem", str (codes "Q"))
    ∷ (codes "signature", str (codes "S"))
    ∷ []

abbrev opened_with : HandshakeInit
opened_with = record {
  agent_id = str (codes "a");
  projects = strs (codes "relay" ∷ []);
  ecdh_pub_pem = str (codes "P");
  ecdsa_pub_pem = str (codes "Q");
  signature_b64 = str (codes "S");
}

parse_handshake_init-iff-IsInit_example :
    (parse_handshake_init wire (wire.dumps opening) ≡ Handshake.ok opened_with)
    ↔ IsInit wire (wire.dumps opening) opened_with
parse_handshake_init-iff-IsInit_example =
    parse_handshake_init-iff-IsInit wire (wire.dumps opening) opened_with
