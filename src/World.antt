-- ===== src/World.antt =====
-- The state that a request reads and writes: the tables of apps/api/prisma/schema.prisma, Redis,
-- the object storage, the search index, the mails, the clock and the configuration.
-- A uuid is a number; so are a random token and a digest, which the code only stores and compares.
mod Rows
mod Queries
pub use Rows.*
unfoldable pub use Queries.*
