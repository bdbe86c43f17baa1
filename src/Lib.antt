-- ===== src/Lib.antt =====
-- A model of the core of lyth_mcp, the MCP server that gives an agent a hot wallet on Monolythium:
-- what it keeps in its JSON files, how it signs and what it lets an agent spend.
--
-- How the parts work together. A tool call reads one of the JSON files, changes the list of records
-- in it and writes the whole list back (Files and Files/Store: readWalletStore, readOutbox and their
-- kin). A wallet (Wallet) holds its mnemonic sealed under a passphrase or a key file, and may have a
-- policy (LowValue) under which small amounts are signed with the hot key alone; a signature under a
-- policy is booked in the policy's buckets. A signed payload waits in the outbox (Outbox), from
-- which tools submit, retry, release and settle it (Desk); each of these writes the outbox, moves
-- the amount between the buckets and files a receipt (Receipts). Orders, bookings and invoices
-- (Commerce) are stores of their own; policies on merchants (Merchant) judge an order, Safety
-- foretells what a wallet's policy would allow, and Preflight checks a transfer against the chain
-- and the policy before it is signed.
--
-- Beside them stands what src/stele keeps: a wallet of the agent's own, whose record in a file and
-- whose seed in the credential store of the system are made and mended together (Stele); and the
-- session with the hosted server, which is signed in to and out of (SignIn) and whose one-use refresh
-- token is rotated (Broker), both under a lock between processes (RefreshLock). Here each call of the file system, of the credential store and of
-- the server may fail, or be done and yet answered with an error: its end is taken from a list in
-- the state, the calls behind its last item succeed.
--
-- Files and code:
--   Prelude        lists, tests, results, actions that throw, and rules for their invariants
--   Amount         src/wallet.ts decimalToUnits, unitsToDecimal
--   Quantity       src/wallet.ts toQuantity; src/index.ts parseQuantity, parseFlexibleBigint
--   LowValue       src/wallet.ts from createLowValuePolicy to lowValueBucketKey
--   Wallet         src/wallet.ts: the records, keys and lookups; Wallet/Ops has the operations from
--                  createWallet to moveLowValueAccounting, Wallet/Summary summarizeWallet, and
--                  Wallet/Transfer resolveSigningBackend and buildTransfer
--   Outbox         src/outbox.ts
--   Receipts       src/receipts.ts
--   Desk           src/index.ts: releaseLowValueReservation and tx_outbox_expire_stale (Desk/Release),
--                  submit_signed_transaction and tx_outbox_retry (Desk/Submit), txStatusSummary (Desk/Status)
--   Commerce       src/orders.ts, src/bookings.ts, src/invoices.ts
--   Safety         src/wallet_safety.ts
--   Merchant       src/merchant_policy.ts; Merchant/Rules has evaluateMerchantPolicy
--   Preflight      src/index.ts scoreEndpoint, preflightTransfer
--   Stele          src/stele/wallet-state.ts (Stele/State), src/stele/os-credential-store.ts (Stele/Custody),
--                  src/stele/agent-wallet-admin.ts (Stele/Admin); Stele/History has the sequences of calls
--   RefreshLock    src/stele/oauth-refresh-lock.ts
--   Broker         src/stele/oauth-credential-store.ts (Broker/Records), src/stele/oauth-session-broker.ts
--                  (Broker/Access), and the schemas of src/stele/oauth-contract.ts that they use
--   SignIn         src/stele/oauth-admin.ts; SignIn/Sessions has status, login and logout
-- Each other module is about the code that its first line names.
--
-- How the code is read. A text whose characters matter is a list of UTF-16 code units, any other
-- text is a string; a bigint that is never negative is a natural number. A function that throws
-- returns a Result, or is an action on the state that may throw: what it wrote before a throw stays
-- written. A file is missing, has a shape that is refused, or holds records; a write replaces it at
-- once, as the rename of a temporary file does, and outside src/stele is taken not to fail. What
-- comes from outside is an argument: the clock, fresh ids and bytes, the environment and the answers
-- of an endpoint (Wallet.Call, Desk.Session); a call reads the day once, but the check and the
-- booking of buildTransfer may fall on two days. node:crypto and the SDK are the record Vault, with
-- the laws that decryption inverts encryption and base64 decodes (VaultLaws), and the function
-- sign_tx. A parameter that patches a record is a function on the fields that the patch may touch.
--
-- The state file of src/stele is missing, malformed or holds a record; a stored seed is what its
-- text decodes to. Only the fields that the schemas do not fix are kept.
--
-- Fuel: the digits of a number are printed with the number itself as fuel; a positive number has at
-- most as many digits. The loop of runExclusive runs on fuel, and more fuel than its timeout in
-- milliseconds is enough, since a round that does not end it takes at least a millisecond.
--
-- Not modelled: the tools that only render texts, the HTTP clients of third parties; in src/stele
-- the browser and the listener for its answer, HTTP, sockets, the permissions of files, JSON texts and their size;
-- the address book, and the policies on bridges, assets and delegations.
pub mod Prelude
pub mod Amount
pub mod Quantity
pub mod Files
pub mod LowValue
pub mod Wallet
pub mod Outbox
pub mod Receipts
pub mod Desk
pub mod Commerce
pub mod Safety
pub mod Merchant
pub mod Stele
pub mod RefreshLock
pub mod Broker
pub mod SignIn
pub mod Preflight
