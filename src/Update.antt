-- ===== src/Update.antt =====
-- src/update: the updater's versions, release manifest, selection, session outcomes and state.
pub mod Version
pub mod Outcome
pub mod Manifest
pub mod Runtime
pub mod Catalog
pub mod Choice
pub mod Selection
pub mod State
