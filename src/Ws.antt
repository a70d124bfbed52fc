-- ===== src/Ws.antt =====
-- The WebSocket side of the forwarder, forwarder/app/ws: a module for each file of the package.
pub mod AgentHandler
pub mod AgentManager
pub mod Handshake
pub mod RawWs
pub mod Server
pub mod ManualServer
