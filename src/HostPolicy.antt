-- ===== src/HostPolicy.antt =====
-- `ssh apply` of src/src/bin/grafhome-ca.rs on a managed host, behind its lock: the SSH files that
-- policy wants, the changes to the files that are there, and the rollback. What is rendered and
-- the key revocation lists come in as the desired files.
pub mod Store
pub mod Checks
pub mod Apply
pub mod Restored
pub mod AllOrNothing
pub mod Converges
pub mod Ends
pub mod Success
pub mod Tests
