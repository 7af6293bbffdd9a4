-- ===== src/Registry.antt =====
-- The enrollment registry of src/src/enrollment_registry.rs: its records, its operations, the
-- validation that a load and a save make, and the proofs about them.
pub mod Record
pub mod Store
pub mod Pending
pub mod Places
pub mod Consistency
pub mod Naming
pub mod Evolution
pub mod Admission
pub mod Tombstones
pub mod Preservation
pub mod Saving
pub mod Revoking
mod Tests
mod Samples
