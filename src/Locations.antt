-- ===== src/Locations.antt =====
-- apps/api/src/locations/locations.service.ts
mod Operations
pub mod Limits
pub mod Controller
pub mod Ownership
unfoldable pub use Operations.*
