-- ===== src/Did.antt =====
-- academic-verification-frontend/src/components/did: the form that creates a DID and the form that
-- registers an institution, with the reading of hexadecimal texts.
pub mod HexBytes
pub mod Create
pub mod Registration
