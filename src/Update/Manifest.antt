-- ===== src/Update/Manifest.antt =====
-- src/update/manifest.rs: the release manifest. The data is in `Targets`,
-- `Surfaces` and `Schema`, the validation in `Checks`.
pub mod Targets
pub mod Surfaces
pub mod Schema
pub mod Duplicates
pub mod Checks
