-- ===== src/Queries.antt =====
-- academic-verification-frontend/src/lib/blockchain: queries.ts in Plain, realQueries.ts in Real.
-- Each method catches its own errors, so a model of one gives its value and no rejection. Warnings
-- written to the console are left out.
pub mod Plain
pub mod Real
