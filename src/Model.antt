-- ===== src/Model.antt =====
-- The data model of internal/model.
pub mod Error
pub mod Blocker
pub mod Claim
pub mod Id
pub mod Decoding
pub mod Prefixes
pub mod Label
pub mod Slug
pub mod SlugForm
pub mod Manifest
pub mod Fencing
