-- ===== src/Tests/Sockets.antt =====
-- A concrete run of a WebSocket's receive loop.
use jd_relay.Ws.ManualServer.Threads.{
  Move, Threads, accepting, closed, accepts, loop_runs, tests, move, next_phase, run,
}
use jd_relay.Ws.ManualServer.Threads.Stopping.{CanMove, all_taken, own_moves, stop_ends}
use jd_relay.Common.{
  ℕ, List, Text, text_eq, length, true, ◌≤◌, ◌⊎◌, none, ◌≡◌, refl, [], ◌∷◌, ◌++◌, Bytes, take, drop,
  codes, arith, false, some,
}
use jd_relay.Common.Outcome.{returned}
use jd_relay.Common.Utf8.{utf8_encode}
use jd_relay.Common.Dict.{lookup, insert}
use jd_relay.Ws.RawWs.Upgrade.{from_upgrade, lower}
use jd_relay.Ws.RawWs.Upgrade.Response.{response_to}
use jd_relay.Ws.RawWs.Upgrade.Accepts.{upgrade_then_text}
use jd_relay.Ws.RawWs.{Opcode, text, ping, pong, encode_frame, length_field, unmask, opcode_value}
use jd_relay.Ws.RawWs.Frames.{client_frame}
use jd_relay.Ws.ManualServer.Wire.{recv_frame}
use jd_relay.Ws.ManualServer.Wire.Frames.{recv_frame-client_frame}
use jd_relay.Ws.RawWs.Connection.{RawWebSocket, recv}
use jd_relay.Ws.RawWs.Connection.Receive.{Arrival, arriving}

abbrev mask_key : Bytes
mask_key = 1 ∷ 2 ∷ 3 ∷ 255 ∷ []

-- A frame in two chunks.
abbrev arrival : Opcode → Bytes → Arrival
arrival opcode payload = record {
  key = mask_key;
  payload = payload;
  chunks =
      take 1 (client_frame mask_key payload opcode)
      ∷ drop 1 (client_frame mask_key payload opcode)
      ∷ [];
}

recv_frame-client_frame_example :
    recv_frame (some (client_frame mask_key (codes "hello") text ++ 7 ∷ []) ∷ none ∷ [])
    ≡ (returned (some (opcode_value text, codes "hello")), some (7 ∷ []) ∷ none ∷ [])
recv_frame-client_frame_example =
    recv_frame-client_frame mask_key (codes "hello") (7 ∷ []) text (none ∷ []) (omega arith) refl
      (omega arith) (omega arith)

-- A server that accepts connections, which are numbers, and is then stopped while one comes in.
abbrev accepting_server : Threads ℕ
accepting_server = record { running = true; phase = accepting; has_loop = true; clients = 4 ∷ [] }

abbrev stopped_server : Threads ℕ
stopped_server = record accepting_server { running = false }

abbrev ended_server : Threads ℕ
ended_server = record { running = false; phase = closed; has_loop = true; clients = 4 ∷ 5 ∷ [] }

abbrev last_moves : List (Move ℕ)
last_moves = accepts 5 ∷ loop_runs ∷ tests ∷ []

stop_ends_example :
    (ended_server.running ≡ false)
    × (length (all_taken last_moves) ≤ 1)
    × (ended_server.clients ≡ accepting_server.clients ++ all_taken last_moves)
    × (own_moves last_moves ≤ 2)
    × ((ended_server.phase ≡ closed) ⊎ ((own_moves last_moves ≤ 1) × CanMove ended_server))
unfolding move next_phase run
stop_ends_example = stop_ends last_moves accepting_server stopped_server ended_server tt refl refl

abbrev headers : List (Text × Text)
headers =
    (codes "Host", codes "relay")
    ∷ (codes "Upgrade", codes "websocket")
    ∷ (codes "Sec-WebSocket-Key", codes "x3JJHMbDL1EzLkh9GBhXDw==")
    ∷ []

abbrev upgrade_request : Bytes
upgrade_request =
    codes "GET /agent-ws HTTP/1.1\r\nHost: relay\r\nUpgrade: websocket\r\n"
    ++ codes "Sec-WebSocket-Key: x3JJHMbDL1EzLkh9GBhXDw==\r\n\r\n"

-- The request in two chunks, then a ping and a text.
upgrade_then_text_example :
    (w : RawWebSocket) × (from_upgrade
        (λ b. b)
        ((take 90 upgrade_request ∷ drop 90 upgrade_request ∷ [])
          ++ arriving
              (arrival ping (codes "?") ∷ [])
              ((arrival text (codes "hello")).chunks ++ ((7 ∷ []) ∷ [])))
      ≡ returned (some w))
    × (recv w ≡ (
      returned (some (codes "hello")),
      record {
        incoming = (7 ∷ []) ∷ [];
        written =
            response_to (λ b. b) (codes "x3JJHMbDL1EzLkh9GBhXDw==")
            ∷ encode_frame (codes "?") pong
            ∷ [];
        is_closed = false;
        hung_up = false;
      },
    ))
unfolding client_frame length_field utf8_encode unmask lookup insert text_eq lower
upgrade_then_text_example =
    upgrade_then_text (codes "GET") (codes "/agent-ws") (codes "HTTP/1.1") headers (refl, refl)
      (refl, refl) (refl, refl) ((refl, refl, refl), ((refl, refl, refl), ((refl, refl, refl), tt)))
      (λ b. b) (codes "x3JJHMbDL1EzLkh9GBhXDw==")
      (take 90 upgrade_request ∷ drop 90 upgrade_request ∷ []) (arrival ping (codes "?") ∷ [])
      (arrival text (codes "hello")) (codes "hello") ((7 ∷ []) ∷ [])
      (omega arith, (omega arith, tt)) refl (omega arith) refl refl (omega arith)
      (((omega arith, refl, omega arith, omega arith, omega arith, refl), tt))
      (omega arith, refl, omega arith, omega arith, omega arith, refl) refl
