-- ===== src/Authapi.antt =====
-- apps/authapi: tokens of the identity service.
pub mod Jwks
