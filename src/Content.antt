-- ===== src/Content.antt =====
-- packages/content-sdk/src: what a package must be like to be published.
pub mod Issues
pub mod CrossLink
pub mod Pedagogy
pub mod Validation
mod Tests
