-- ===== src/Team.antt =====
-- apps/api/src/team/team.service.ts: members, roles and invitations of an account.
mod Queries
mod Invitations
mod Members
pub mod Controller
pub mod Boundary
pub mod Owners
pub mod Histories
pub mod Capacity
pub mod Authority
unfoldable pub use Queries.*
unfoldable pub use Invitations.*
unfoldable pub use Members.*
