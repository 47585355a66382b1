-- ===== src/Store.antt =====
-- academic-verification-frontend/src/store: the state that the pages share, one module for each
-- store. A store's `set` with the fields to change is a record update.
pub mod Notifications
pub mod Did
pub mod Wallet
pub mod Credentials
pub mod Ui
mod Tests
