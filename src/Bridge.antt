-- ===== src/Bridge.antt =====
-- The admin port client: src/nttd/bridge.
pub mod Wire
pub mod CommandNames
pub mod Signed
pub mod Client
