-- ===== src/Resp.antt =====
-- The RESP wire format: src/resp.
pub mod Decimal
pub mod Buffer
pub mod BulkString
pub mod SimpleString
pub mod Integer
pub mod Array
