-- ===== src/Demo.antt =====
-- demo/ and server/scripts/: the programs that stand beside the server.
pub mod Recompute
pub mod Client
pub mod Evidence
pub mod Casino
pub mod Anchor
pub mod Table
pub mod Setup
pub mod Topup
