-- ===== src/Mobile.antt =====
-- apps/mobile/src: the parts of the mobile app that keep state.
pub mod Outbox
pub mod SearchBox
pub mod TagsField
pub mod Offers
pub mod Inbox
pub mod ItemPage
pub mod NotePage
pub mod Settings
pub mod Tier
pub mod Dictation
pub mod SyncQueue
pub mod ApiClient
pub mod Account
pub mod Durability
pub mod Safekeeping
pub mod Termination
pub mod Duplicates
pub mod Delivery
