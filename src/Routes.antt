-- ===== src/Routes.antt =====
-- apps/api-gateway/src/routes.ts: the public and the internal routes.
pub mod Schemas
pub mod Public
pub mod Internal
