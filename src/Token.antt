-- ===== src/Token.antt =====
-- internal/apitoken: identity-scoped tokens and the requests that their scopes authenticate.
pub mod Scope
pub mod Scopes
pub mod Actors
pub mod Errors
pub mod Issuer
pub mod Verifier
pub mod Jose
pub mod Ttl
