-- ===== src/Tests.antt =====
-- Concrete inputs: the parameters of the model instantiated, runs of the definitions, and the
-- theorems applied.
mod Wire
mod Keys
mod Orders
mod Guards
mod Agents
mod Conversation
mod Settings
mod Sessions
mod Sockets
mod Callbacks
mod Builds
mod Talks
mod Manual
mod Schema
