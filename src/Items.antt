-- ===== src/Items.antt =====
-- apps/api/src/items/items.service.ts: capture, filing, tags, attachments and the lists of items.
mod Access
mod Tags
mod Capture
mod Filing
mod Lists
pub mod Controller
pub mod Visibility
pub mod Placement
pub mod Quota
pub mod Isolation
unfoldable pub use Access.*
unfoldable pub use Tags.*
unfoldable pub use Capture.*
unfoldable pub use Filing.*
unfoldable pub use Lists.*
