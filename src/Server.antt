-- ===== src/Server.antt =====
-- The connections and the event loop: src/server/server.cc.
pub mod Request
pub mod Config
pub mod Replica
pub mod Connection
pub mod Loop
pub mod Exchange
pub mod Start
