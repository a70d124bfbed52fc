-- ===== src/Lib.antt =====
-- JD-Relay's forwarder (forwarder/app): it takes work orders through an approval in DingTalk, sends
-- build triggers to agents over an encrypted WebSocket channel, and takes their results back.
--
-- Parts and files:
-- - WorkOrder: the state machine of forwarder/app/state.py. WorkOrder.Graph has its transitions
--   as a relation, WorkOrder.Documented compares them with the drawing of docs/architecture.md, and
--   WorkOrder.History follows sequences of transitions.
-- - Crypto: forwarder/app/crypto. ReplayGuard is replay_guard.py (Cache: what a purge keeps; Replays:
--   steps of a guard on a clock), Base64 is base64.py (RoundTrip: decoding what it
--   encoded; Hex: hexadecimal text), Envelope is envelope.py, AesGcm is aes_gcm.py,
--   Ecdsa is ecdsa.py, Ecdh is ecdh.py, Codec is codec.py (Checks: what decrypt accepts; Channel: a
--   conversation; RoundTrip: both ends). Primitives holds what the code takes from the cryptography
--   package.
-- - Ws: forwarder/app/ws. AgentManager is agent_manager.py (Routes: its dictionaries; Registry: what it
--   guarantees; Refinement: what it stands for). RawWs is raw_ws.py: its frames (Masks, Frames, Prefixes), Upgrade its HTTP upgrade and
--   Connection the class RawWebSocket (Receive: its loop). Upgrade.Request is a request as a client
--   writes it, BlankLine finds its end, Response is the answer, and Accepts goes from the request to the
--   first text. Handshake is _parse_handshake_init of
--   agent_handler.py, Handshake.Answer is _do_handshake (Agreement: both ends), and AgentHandler is
--   handle_agent_connection (Frames: a received frame; Delivery: from the
--   agent's codec to the callback; Session: a whole connection; Presence: the registry). Server is server.py
--   (Delivery: from its route to an agent; Started: callbacks in an application that it
--   started; Shutdown: what it does after its end), and
--   ManualServer is _handle_client of manual_server.py: Wire its frames on a socket (Frames: against those
--   of raw_ws.py), Opening all up to the registration, Lifecycle and Balance what it makes the event loop
--   do, and Threads start, stop and _accept_loop of that file (Stopping: what is left after stop);
--   Reports and Served follow an agent's reports from the bytes on the socket to the event loop, and
--   Endings its loop to its end.
-- - Relay: RelayService of forwarder/app/services/relay.py; Monad is the raising method that acts on a
--   world, Forms the texts that it makes, Spelling what a decision and a build status ask for, Lifecycle and
--   Effects what the methods return and do, and Delivery follows a build trigger to the agent.
-- - DingTalk: forwarder/app/services/dingtalk.py (Token: its cached token; Signature: its check of a
--   callback).
-- - Approvals: _handle_approval_finish of forwarder/app/api/dingtalk.py over rows of
--   forwarder/app/models.py and the session of forwarder/app/database.py (Asked: what a callback asks
--   for; Finish: what it does). Approvals.Callback is the routes of that file.
-- - Admin: forwarder/app/api/admin.py (Rows: what it reads and answers; Stats: the
--   dashboard's numbers).
-- - Models: the tables of forwarder/app/models.py. Migrations: the operations of
--   alembic/versions/001_initial_schema.py (Agreement: against the models; Order: against a database
--   that checks what each needs).
-- - Database: the session that forwarder/app/database.py gives to a request.
-- - Main: forwarder/app/main.py (Binding: where it listens).
-- - Config: forwarder/app/config.py; Config.Precedence says which source decides a setting.
-- - Common: the vocabulary that all share. Tests: concrete runs, with primitives (Keys) and a JSON
--   serialisation (Wire) that satisfy what is assumed of them.
--
-- The relay service checks the state machine and then calls DingTalk or the agent registry, which both
-- stand as functions on a world; the codec reads the envelope, asks the replay guard, the signer and
-- the cipher in turn, and records the nonce last. A connection makes its codec by the handshake, enters
-- the registry, and gives each frame to the codec; a callback route asks the DingTalk service for the
-- signature and then moves the order. A definition has the name of the function or method
-- that it models; a method that changes an object takes the object and returns the new one. A reading
-- of the clock, a random value, a generated key or an identifier is an argument, one for each time the
-- code takes one.
--
-- A Python str or bytes is a list of code points or bytes, a dict is a list of pairs in order of
-- insertion, an exception is a value of Outcome or Result. What several tasks do is a list: the events
-- of a connection, the tasks that wait for a lock, the chunks that a stream gives, the moves of the threads
-- of the manual server in whatever order they fall. The numbers of
-- Python are unbounded, and so are these. Two loops have fuel:
-- Base64.lines splits a text into lines of 64 characters, and its fuel is the length of the text, which is
-- at least the number of lines; ManualServer.Wire.read_payload reads a payload in rounds, and its fuel is
-- the payload's length, since each round reads a byte or more (ManualServer.Wire.Fuel).
--
-- Parameters: Primitives with its laws Correct (ECDSA signatures verify, AES-GCM decrypts what it
-- encrypted and adds a tag of 16 bytes), KeyExchange with its laws Agrees (both ends of a key exchange
-- compute one secret, exported keys are loaded back), Json (a flat object that was dumped is loaded
-- back), SQLAlchemy's engine and sessions, the DingTalk SDK, the WebSocket's send, HMAC, SHA-1, Python's int on values and strings and
-- its formatting of values, the reading of JSON columns, the writing of times, and what the database
-- does with a number that is no string and with an order of rows.
--
-- Not modelled: the HTML pages and the mounting of routers of ws/server.py, logging, the parsing of the
-- command line, alembic/env.py and the C++ agent: they are input and output around the parts above, calls
-- of other packages, or templates.
pub mod Admin
pub mod Approvals
pub mod Common
pub mod Config
pub mod Crypto
pub mod Database
pub mod DingTalk
pub mod Main
pub mod Migrations
pub mod Models
pub mod Relay
pub mod Tests
pub mod WorkOrder
pub mod Ws
