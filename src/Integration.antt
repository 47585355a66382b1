-- ===== src/Integration.antt =====
-- academic-verification-frontend/src/lib/blockchain/integration.ts
pub mod Types
pub mod Timestamp
pub mod Format
pub mod Files
pub mod Waiting
pub mod Network
mod Tests
