-- ===== src/Api.antt =====
-- server/src/controllers.ts: the handlers of the controllers, on the engine with its database. What
-- the framework passes in (the operator that OperatorGuard found, the parsed body) is an argument.
pub mod Rules
pub mod Play
pub mod Verify
pub mod Params
pub mod Pages
pub mod Billing
pub mod Filter
pub mod Operators
pub mod Topup
pub mod Auth
pub mod Run
