-- ===== src/Store.antt =====
-- The storage of institutions and deposits, apps/api-gateway/src/store/.
pub mod Types
pub mod Interface
pub mod Contract
pub mod JsMap
pub mod Memory
pub mod Postgres
pub mod Factory
