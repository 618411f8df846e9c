-- ===== src/Ct.antt =====
-- ct/: the RFC 6962 data types, their serialization and the verification of signatures.
pub mod Types
pub mod Codec
pub mod Write
pub mod Read
pub mod Var
pub mod List
pub mod Leaf
pub mod Scts
pub mod Signatures
pub mod Client
pub mod Retry
pub mod Entries
pub mod Total
mod Tests
