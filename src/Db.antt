-- ===== src/Db.antt =====
-- server/src/db.ts and the statements of the server: the tables, and what is proved of them.
mod Tables
pub mod Epochs
pub mod Receipts
unfoldable pub use Tables.*
