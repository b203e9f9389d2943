-- ===== src/HttpApi.antt =====
-- internal/httpapi: the HTTP service in front of the accounts.
pub mod Auth
pub mod KeepAlive
