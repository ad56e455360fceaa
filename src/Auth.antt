-- ===== src/Auth.antt =====
-- apps/api/src/auth: sessions, sign-in, the second factor and its enrollment.
mod Primitives
mod Sessions
mod Challenge
mod SignIn
mod Enrollment
mod Guards
pub mod Controller
pub mod Rotation
pub mod SecondFactor
pub mod Renewal
unfoldable pub use Primitives.*
unfoldable pub use Sessions.*
unfoldable pub use Challenge.*
unfoldable pub use SignIn.*
unfoldable pub use Enrollment.*
unfoldable pub use Guards.*
