-- ===== src/Renewal.antt =====
-- The renewal of a certificate in src/src/x509.rs: when it is due, what state the live files are
-- in, and how a run issues and publishes a certificate.
pub mod Times
pub mod Assessment
pub mod Issue
pub mod Run
pub mod Due
pub mod Published
pub mod Renewed
pub mod Safety
mod Tests
