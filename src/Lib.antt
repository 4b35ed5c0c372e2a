-- ===== src/Lib.antt =====
-- Script-Pay-Backend: the movement of money through an M-Pesa gateway for several tenants.
--
-- Tenants collect from customers (STK push, Paybill, Till) and pay out (B2C). Every shilling is
-- written twice in a ledger, and a tenant's balance is the sum of its entries. The services create
-- rows and call Safaricom; what Safaricom answers later is posted as a callback, stored once, and
-- applied by the transaction state machine, which the reconciliation jobs and the operators call
-- too. So the state machine, the payout service and the collection service are the writers of
-- transactions and ledger entries, and the theorems are about what they may write in any order.
--
-- Around them stand the services that say who may act: tenants with their status, shortcodes and
-- credentials, which a payment reads before it calls Safaricom; API keys and their guard; and the
-- accounts and sessions of the dashboard. Guards stand before the routes, and the dashboard reads
-- transactions, balances, reports and the audit log.
--
-- The files, and the code that each is about:
--   Shared: Boolean tests, lists, optional texts as JavaScript tests them, signed integers.
--   Store: prisma/schema.prisma. Rows are the tables and the record of all of them; Tx is
--     `$transaction` (an error carries no store: it is rolled back), Action is a service method
--     whose statements commit one by one; Tables are the queries on transactions, with the unique
--     columns; Outcomes, Invariants and Updates are the lemmas on them.
--   Ledger: src/modules/ledger (availableBalance, assertSufficientBalance, the balanced pairs);
--     Ledger/Balance says what the entries must add up to, by the statuses.
--   StateMachine: src/modules/payments/transaction-state-machine.ts, one function per method;
--     Consistency and Fresh are the two halves of the invariant, Soundness is the invariant over
--     sequences of calls, Redelivery is about callbacks that come twice, Progress about statuses.
--   Payments: src/modules/payments/b2c/b2c.service.ts and stk-push/stk-push.service.ts; Safaricom
--     is the parameter of both. Messages and DarajaClient are
--     src/infrastructure/daraja/daraja.client.ts, with the amount rules of both request schemas.
--   Reconciliation: src/modules/reconciliation/drift-detector.service.ts (Drift) and
--     payout-resolution.service.ts (Resolution).
--   Callbacks: src/modules/callbacks. Payload is what Safaricom posts, Ingest is
--     extract-natural-key.ts and the ingest of webhook-ingest.service.ts, Timestamps and Normalize
--     are its normalization; Webhook is daraja-webhook.controller.ts; Handlers, Dispatch and
--     Poller are webhook-poller.service.ts; Deliveries is tenant-webhook-poller.service.ts, and
--     Redaction is redact-callback-payload.ts.
--   Tenants: src/modules/tenants. ShortcodeRows are the transactions of tenant-shortcodes.service.ts
--     with the triggers of prisma/manual-sql/003_tenant_shortcodes.sql, Shortcodes is that service,
--     Schemas is tenant-shortcodes.schema.ts;
--     Status, Credentials and Onboarding are tenants.service.ts. KillSwitch fills the parameter
--     `Daraja` of the payment services with the credentials that Credentials reads.
--   ApiKeys: src/modules/api-keys/api-keys.service.ts; Guard is src/common/guards/api-key.guard.ts,
--     which compares a prefix of eight bytes where the code takes eight UTF-16 units.
--   Sessions: src/modules/auth. Refresh is refresh-token.service.ts, OneTime is
--     verification-token.service.ts, Auth is auth.service.ts, Routes are auth.controller.ts and the
--     logout of profile.controller.ts.
--   Guards: the guards of src/common/guards but the one for API keys, access-token.guard.ts and
--     refresh-csrf.guard.ts.
--   Responses: the exception filter, the response interceptor and the validation pipe of
--     src/common.
--   AuditLog: src/modules/audit-log/audit-log.service.ts.
--   Dashboard: the reads of src/modules/payments/transactions.controller.ts and of
--     src/modules/ledger/ledger.controller.ts; Reporting is src/modules/reporting.
--   Jobs: src/modules/jobs. Config: src/config/env.schema.ts.
--   System: callbacks, jobs, operators, payouts and collections on one store, as a sequence of
--     steps; Reachable is what holds of every state that they reach.
--   Examples: a small store, and runs of the services on it.
--
-- How the state corresponds: an id is a number that the store hands out, where the database makes
-- a uuid; a time is a number of milliseconds; an amount is a signed number of minor units of any
-- size, where the columns hold 32 bits. The row locks make each method of the state machine and
-- each reservation one step. Between a request's own steps anything may be committed by others:
-- that is the parameter `Elsewhere`, of which IsOrderly states that it keeps the tables sound and
-- leaves the request's waiting row alone. Safaricom and the look-up of credentials are the
-- parameter `Daraja`, whose calls answer or throw, with no further assumption. How JavaScript reads
-- a number out of a callback (`minor_units`, `reads_as_zero`) is a parameter too. A query without
-- an order takes the rows as they are stored. Loops are over finite batches and need no fuel, but
-- for the walk along replaced refresh tokens (findLiveDescendant), whose fuel is one more than the
-- rows of the table and is proved to be enough. Random texts (keys, tokens, ids of requests) are
-- arguments; argon2, SHA-256, the AES layer and the signer of access tokens are parameters.
--
-- A file called Books says that its parent's methods keep the payment tables sound. In System a
-- request is one step; what others commit while it waits is the subject of Payments. A poll that a
-- callback sets off comes right after the callback. `createdAt` is the order of the rows, and a
-- parameter where a period is asked for. A date is read as ECMAScript reads its date strings.
--
-- Of what is posted, numbers are whole, a CheckoutRequestID is a text or missing, and Safaricom's
-- answer to a request for a token has both its fields.
--
-- Not modelled: logging and the prose of emails, alerts and audit metadata; foreign keys,
-- row-level security and the unique columns of the account tables (User.email, the hashes of tokens
-- and keys); sums that overflow a column; the rest of the HTTP layer (the controllers that
-- only hand on their arguments, the logging interceptor, the schemas of request bodies but for the
-- amounts and the shortcodes); the request limits themselves. Of what is posted to Safaricom the
-- password, its timestamp and the callback URLs are left out. The services of tenants and sessions
-- run one request at a time. An email counts as sent once it is handed over, since EmailService
-- reports no failure. The signature of a notice and the request that carries it are parameters of
-- Deliveries.
pub mod Shared
pub mod Store
pub mod Ledger
pub mod StateMachine
pub mod Payments
pub mod Reconciliation
pub mod Callbacks
pub mod Examples
pub mod ApiKeys
pub mod Guards
pub mod Responses
pub mod Tenants
pub mod Sessions
pub mod Jobs
pub mod Config
pub mod System
pub mod AuditLog
pub mod Dashboard
