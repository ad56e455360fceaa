-- ===== src/Admin.antt =====
-- apps/api/src/admin: the pages of the platform's operators.
mod Service
pub mod Controller
pub mod Access
mod Cursor
pub mod Paging
pub mod Counts
unfoldable pub use Service.*
