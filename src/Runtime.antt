-- ===== src/Runtime.antt =====
-- The provisioners of a running CA, of src/src/runtime_provisioners.rs. The functions take what the
-- code reads from `ca.json`, and return what it serialises.
pub mod Live
pub mod Removal
pub mod Claims
pub mod Install
pub mod Enroll
pub mod Certificates
pub mod Reconcile
pub mod Sweep
pub mod Removed
pub mod Merged
pub mod Sole
pub mod Installed
pub mod Kinds
pub mod Swept
pub mod Denying
pub mod Safe
mod Tests
pub mod Binding
pub mod Bound
mod Examples
