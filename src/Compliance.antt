-- ===== src/Compliance.antt =====
-- saap/compliance: the interceptor chain, its five stages, and the DPDP services beside it.
pub mod Chain
pub mod Platform
pub mod Consent
pub mod Policy
pub mod RateLimit
pub mod Audit
pub mod Pii
pub mod Runtime
pub mod Breach
pub mod Erasure
pub mod Evidence
pub mod Canvas
