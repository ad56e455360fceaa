-- ===== src/Tests.antt =====
-- Runs of the modelled code on a small state, and the theorems applied to it.
mod Fixtures
pub mod TeamRuns
pub mod AuthRuns
pub mod ItemRuns
pub mod LocationRuns
pub mod MobileRuns
pub mod AdminRuns
pub mod InboxRuns
pub mod PageRuns
pub mod SearchRuns
pub mod ServerRuns
pub mod SettingsRuns
pub mod SharedRuns
