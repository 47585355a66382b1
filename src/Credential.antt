-- ===== src/Credential.antt =====
-- academic-verification-frontend/src/components/credentials: the status of a credential, the list, the
-- verification page, the details and the form that issues credentials.
pub mod Status
pub mod Verify
pub mod Issue
pub mod List
pub mod Detail
