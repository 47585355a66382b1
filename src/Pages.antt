-- ===== src/Pages.antt =====
-- academic-verification-frontend/src/pages: the list of the credentials that an institution issued, the
-- administration of institutions, the credentials of a holder, the profile of an institution and the
-- statistics of the dashboard.
pub mod Issued
pub mod Admin
pub mod Holder
pub mod Profile
pub mod Dashboard
