-- ===== src/Lib.antt =====
-- Verification library of academic-verification: its web frontend, the TypeScript program under
-- academic-verification-frontend/src, which issues, stores, shows and verifies academic credentials, and
-- the three pallets under pallets/ by which a blockchain node keeps them. Paths below are relative to
-- academic-verification-frontend/src, but for those of the pallets.
--
-- The parts and how they interact. The wallet provider connects a browser extension, keeps the selected
-- account in the wallet store, and loads the account's decentralized identifier (DID) from the chain
-- into the DID store. The queries read the chain's storage and format what they read. The forms build
-- transactions, which `submitTransaction` signs, sends and follows until they are finalized or fail.
-- The pages show the results and raise notifications. The pallets keep identifiers, institutions,
-- credentials with their indexes, and endorsements; the queries read what they store.
--
-- The files:
-- - Prelude and its children: tests on numbers, lists, promises that are settled, JavaScript's
--   truthiness, and the names of the libraries that all files use.
-- - Constants: lib/utils/constants.ts, the credential types and their tables, the states of a DID.
-- - Chain: what a node answers, one field of `Api` for each query of the client library.
-- - Hex: the decoders of names, `decodeHexString` and `decodeInstitutionName`.
-- - Integration: lib/blockchain/integration.ts. Types is `formatCredentialType` with the table of
--   `issueCredential`, Timestamp is `normalizeTimestamp`, Format is `formatCredentialData` and
--   `checkPalletAvailability`, Files the hashes and references of files and the metadata, Waiting is
--   `waitForInBlock` as a run over events, and Network the helpers about balances, errors, batches and
--   subscriptions.
-- - Transactions: lib/blockchain/transactions.ts. Submit is `submitTransaction`, as a run over the events
--   that the wallet and the client library cause, Extrinsic and Calls the methods of the three classes,
--   and Forms the forms over them.
-- - Queries.Plain and Queries.Real: every method of lib/blockchain/queries.ts and
--   lib/blockchain/realQueries.ts.
-- - Store.Did, Store.Wallet, Store.Notifications, Store.Credentials, Store.Ui: the stores of store/, a
--   record for the state and a function for each action; Store.Notifications has also the click handler
--   and the times of components/layout/NotificationBell.tsx.
-- - Provider.Wallet: providers/WalletProvider.tsx, with the stores that it writes.
-- - Provider.Connection: providers/PolkadotProvider.tsx as a run over events, with
--   hooks/blockchain/useBlockchain.ts. Provider.Balance: hooks/blockchain/useBalance.ts.
-- - Credential.Status: `getStatus` of components/credentials/CredentialCard.tsx, and the status filters
--   and counts of CredentialsList.tsx.
-- - Credential.List: the decoding, the filters and the order of CredentialsList.tsx.
-- - Credential.Verify: components/credentials/VerifyCredential.tsx, with the camera in
--   Credential.Verify.Camera and what is drawn of a result in Credential.Verify.View.
-- - Credential.Issue: components/credentials/IssueCredentialForm.tsx, with the extrinsic that it sends.
-- - Credential.Detail: the sharing and the export of components/credentials/CredentialDetailModal.tsx.
-- - Did.Create and Did.Registration: components/did/CreateDIDForm.tsx and
--   components/did/InstitutionRegistration.tsx; Did.HexBytes: the reading of hexadecimal texts.
-- - Pages.Issued, Pages.Admin, Pages.Holder, Pages.Profile and Pages.Dashboard:
--   pages/IssuedCredentials.tsx, pages/AdminVerification.tsx, pages/Credentials.tsx,
--   pages/Institution.tsx and pages/Dashboard.tsx.
-- - Shell: what stands around the pages. Routes is the table of App.tsx, Navigation the links of
--   components/layout/, Identity the states of the DID in components/did/DIDStatus.tsx,
--   pages/IssueCredential.tsx and pages/Dashboard.tsx with the dialog of
--   components/did/CreateDIDModal.tsx, ChainStatus hooks/blockchain/usePolkadotApi.ts as a run over events
--   and components/blockchain/ChainStatus.tsx, WalletMenu components/blockchain/WalletConnect.tsx, Boundary
--   components/error/ErrorBoundary.tsx, and Settings pages/Settings.tsx.
-- - Pallets.Did, Pallets.Credential and Pallets.Reputation: pallets/did/src/lib.rs,
--   pallets/credential/src/lib.rs and pallets/reputation/src/lib.rs, a record for the storage of each and
--   a function from storage to storage, or to an error, for each call; Calls below them has the calls as
--   data. Pallets.Base is what they take from the framework, Pallets.Runtime their composition and the
--   storages that calls and blocks lead to, and Pallets.Serving the verification page over a node that
--   serves such a storage.
-- Below a component, Laws and the modules named for what they prove hold the proofs, and Tests holds
-- runs on concrete data.
--
-- Conventions. A function of the code is a function of the same name in snake case. A component's state
-- is a record and is passed explicitly; `Settled` is a promise that is fulfilled or rejected, and a
-- `try` block is a chain of such values with a default or a `catch` at its end. `null` and `undefined`
-- are `none`, and truthiness is written out. Numbers are natural; the one number that can be negative,
-- a block before the first one, is an integer. Tables are read at their own keys. A toast is its kind
-- and its title.
--
-- Parameters of the definitions: the node's answers, `hexToString`, the registry's `findMetaError`,
-- the answers of the wallet extension, the hash of a document, `JSON.parse` and `JSON.stringify`,
-- the browser's `URL` and its permissions, the values that React draws, the keyring, the decoding of
-- bytes, the format of balances, the validation of the form library, and the clock; of the chain,
-- the hash function and the encoding of an account. One `Api` value stands for all that the chain
-- answers during one operation; Pallets.Serving ties it to a storage of the credential pallet, by
-- what the client library makes of a record. A call of a pallet that fails leaves the storage as it
-- was, which the framework does. Accounts and hashes are the texts that the client library names
-- them by. The bounds of the arguments of a call, which the framework checks when it decodes them,
-- are not repeated.
--
-- Bounds and fuel. Every function is structural, but for the printing of a number, whose fuel is the
-- number and one more, and no number has more digits than that.
--
-- Not modelled: markup and styling, the console's output, the persistence of the stores by their
-- middleware, the pictures of the camera and of the codes, what
-- becomes of the clipboard and of the files that the browser downloads, the constants of the build, and of the node the wiring of the framework (consensus,
-- networking, weights, genesis) and the template pallet, which the frontend does not use.
mod Prelude
pub mod Constants
pub mod Chain
pub mod Integration
pub mod Transactions
pub mod Store
pub mod Hex
pub mod Queries
pub mod Provider
pub mod Credential
pub mod Pages
pub mod Pallets
pub mod Shell
pub mod Did
