-- ===== src/TrustManager.antt =====
-- trust_manager/private/src: keys and certificates in a folder, and the answers of the certificate
-- authority.
pub mod Storage
pub mod CaResponse
pub mod CertHandler
mod Tests
