-- ===== src/Tokens.antt =====
-- enterprise/tokens: tokens that the factory records, lists and revokes.
pub mod Registry
pub mod Storage
pub mod Manager
pub mod Requests
pub mod Frontend
