-- ===== src/Policy.antt =====
-- The policy model of src/src/policy/mod.rs; each child names the part that it models.
pub mod Revoked
pub mod Duration
pub mod Model
pub mod Checked
pub mod Fields
pub mod Relations
pub mod Certificates
pub mod Revocations
pub mod Validation
pub mod Accepted
pub mod Sans
pub mod Principals
pub mod Admins
pub mod Panics
pub mod Lifetimes
mod Tests
pub mod Samples
