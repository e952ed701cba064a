-- ===== src/Security.antt =====
-- src/security: pairing, command and path policy, rate limiting, secrets.
pub mod Pairing
pub mod Policy
pub mod Rate
pub mod Secrets
