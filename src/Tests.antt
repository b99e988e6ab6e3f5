-- ===== src/Tests.antt =====
-- The theorems at concrete inputs, and tests of the definitions.
pub mod Resp
pub mod Database
pub mod Server
pub mod History
pub mod Replica
pub mod Connection
pub mod Store
