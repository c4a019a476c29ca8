-- ===== src/Transport.antt =====
-- internal/frontend/http/transport and the runtime checks of api/openapi.go.
pub mod Contract
pub mod Route
pub mod Registrar
pub mod Response
pub mod Errors
