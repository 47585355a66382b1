-- ===== src/Pallets.antt =====
-- The pallets of the chain, pallets/did/src/lib.rs, pallets/credential/src/lib.rs and
-- pallets/reputation/src/lib.rs: what the node keeps for the frontend. Base has what they share,
-- Runtime composes them, and Serving is the frontend's verification page over their storage.
pub mod Base
pub mod Did
pub mod Credential
pub mod Reputation
pub mod Runtime
pub mod Serving
mod Tests
