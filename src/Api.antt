-- ===== src/Api.antt =====
-- web/src/api.ts: how the client makes safe values of what the server sends, and its offline cache.
pub mod Data
pub mod Scalars
pub mod Places
pub mod State
pub mod Cache
pub mod Events
pub mod Packets
pub mod Propagation
pub mod Chat
