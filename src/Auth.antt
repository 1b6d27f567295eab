-- ===== src/Auth.antt =====
-- internal/auth: who may speak to a node.
pub mod Int64
pub mod Nonces
pub mod Signer
pub mod Certificates
pub mod Crl
pub mod Verifier
