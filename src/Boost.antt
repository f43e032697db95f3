-- ===== src/Boost.antt =====
-- src/boost.ts: importing boost jobs and proofs.
pub mod Store
pub mod Network
pub mod Fetch
pub mod Jobs
pub mod Proofs
