-- ===== src/Examples.antt =====
-- Runs of the code at concrete inputs.
pub mod Scopes
pub mod Tokens
pub mod Issuing
pub mod Minting
pub mod Http
pub mod Access
pub mod Images
pub mod Schematics
pub mod Versions
pub mod Enhancing
pub mod Serving
pub mod Fetching
