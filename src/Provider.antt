-- ===== src/Provider.antt =====
-- academic-verification-frontend/src/providers and the hooks of the connection: the wallet provider, over
-- the stores, the provider of the connection and the balance of an account.
pub mod Wallet
pub mod Connection
pub mod Balance
