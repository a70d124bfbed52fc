-- ===== src/Crypto.antt =====
-- The encrypted channel, forwarder/app/crypto: a module for each file of the package.
pub mod ReplayGuard
pub mod Primitives
pub mod AesGcm
pub mod Base64
pub mod Envelope
pub mod Ecdsa
pub mod Ecdh
pub mod Codec
