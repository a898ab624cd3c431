-- ===== src/Core.antt =====
-- saap/core: the value objects and the platform's contracts.
pub mod Types
pub mod TokenPattern
pub mod Flow
