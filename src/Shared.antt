-- ===== src/Shared.antt =====
-- packages/shared/src: the vocabulary that the API and the mobile app have in common.
pub mod Enums
pub mod Tiers
pub mod Schemas
pub mod Credentials
