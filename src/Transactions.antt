-- ===== src/Transactions.antt =====
-- academic-verification-frontend/src/lib/blockchain/transactions.ts: `submitTransaction` in Submit,
-- the transaction classes of the three pallets in Calls, and the forms over them in Forms.
pub mod Submit
pub mod Extrinsic
pub mod Calls
pub mod Forms
