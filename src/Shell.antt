-- ===== src/Shell.antt =====
-- What stands around the pages: the routes of academic-verification-frontend/src/App.tsx, the links and
-- menus of academic-verification-frontend/src/components/layout/, the states of the identity, the
-- wallet and the chain that they show, and the settings. A view is what is shown, by its title or its
-- address; the markup around it is left out.
pub mod Routes
pub mod Navigation
pub mod Identity
pub mod ChainStatus
pub mod WalletMenu
pub mod Boundary
pub mod Settings
pub mod Heads
pub mod Modal
pub mod Links
mod Tests
