-- ===== src/Lib.antt =====
-- Verification of CoopLumen's backend (TypeScript, under backend/src), and of parts of its frontend
-- that hold state or compute.
--
-- The backend is an Express application over PostgreSQL and the Stellar network. Its state is in
-- the tables of the database and in a few maps in memory.
--
-- Loans, backend/src/api/routes/loans.ts. `Loans` declares the rows of the tables and the answers
-- of the routes; `Loans.Store` the SQL statements on those tables, with the constraints of
-- backend/src/db/migrations, and `db.transaction` of backend/src/db/index.ts. `Loans.Scoring` has
-- totalDue, withTotals and bumpReputation; `Loans.Create`, `Loans.Disburse`, `Loans.Repay` and
-- `Loans.Closing` the five routes that write, each as its guards (`…_check`), its transaction
-- (`…_tx`) and what the client and the tables get (`…_commit`). `Loans.System` puts the routes
-- together: requests whose guards have passed wait, and their transactions run in any order.
-- JavaScript's doubles are the parameter `Loans.Doubles.Doubles`, with the laws of rounding that a
-- theorem needs as named hypotheses. Counters are unbounded numbers, where the tables have
-- 32-bit columns.
--
-- Communities, backend/src/api/routes/communities.ts. `Communities` declares the rows and the
-- answers, `Communities.Store` the statements with the constraints of the tables,
-- `Communities.Registry` the routes that create, update and delete a community, with
-- normalizeCommunityName, zod's tests and the CHECK constraints as the parameter `Texts`, and
-- `Communities.Membership` the routes of /:id/members over the rows that requireCommunityRole
-- reads, those of `Http.Guards`. `Communities.Serve` runs a request on the registry from its guards
-- to its answer. `Communities.Roster` is what the members' routes promise, a map to roles; the
-- table is viewed as such a map in `Communities.Views` and the routes compared in
-- `Communities.Refinement`. `Communities.Effects`, `Communities.Clashes` and `Communities.Names`
-- are about the ids and names of communities, `Communities.Reuse` about names that are taken.
--
-- TokenRoutes, backend/src/api/routes/tokens.ts. `TokenRoutes` has errorHandler.ts and the catch of
-- the routes, `TokenRoutes.Submit` POST /submit, and `TokenRoutes.Airdrop` POST /build-airdrop,
-- which takes the members from the tables of `Communities` and makes a batch of `Stellar.Batch`,
-- whose errors are those of `Stellar.Errors`.
--
-- Prices, backend/src/services/prices.ts, backend/src/cache/prices.ts and
-- backend/src/api/routes/prices.ts. `Prices` has the four sources and fetchXlmPrice, `Prices.Cache`
-- the two tiers of the cache and the route, `Prices.Waterfall` and `Prices.Freshness` the theorems.
-- What the sources answer and when is the parameter `Market`; Redis is a parameter with its laws.
--
-- Frontend, frontend/src. `Frontend.PageRange` is buildPageRange of components/ui/Pagination.tsx, with
-- `Frontend.PageRange.Order` and `Frontend.PageRange.Shown` on its result; `Frontend.UrlPage` is
-- hooks/usePagination.ts, where the query of the URL is the value of one parameter.
-- `Frontend.Select` is the state of components/ui/Select.tsx with the handlers of its events, with
-- `Frontend.Select.Walks` on findEnabled and `Frontend.Select.Sound` on what they keep, and
-- `Frontend.Toasts` hooks/useToast.tsx with its timers, on which `Frontend.Toasts.Timers` is. The rounds
-- of findEnabled's loop that counts up are the length of the options, which it never needs more of.
--
-- Migrate, backend/src/db/migrate.ts. `Migrate.Files` orders and lists the migration files and
-- finds those that were changed, `Migrate.Runner` has ensureSchemaMigrationsTable, applyMigration,
-- runPending and rollback, `Migrate.Command` parseArgs, showStatus and migrate. The file system,
-- PostgreSQL and the two string operations of JavaScript are the parameter `Migrate.Platform`.
-- A transaction that fails leaves the database as it was; the migrations before it stay applied.
--
-- Stellar, backend/src/contracts. `Stellar.TimeBounds` is resolveTimeBounds of timeBounds.ts;
-- `Stellar.Retry` is withRetry and loadAccountSafe of stellar.ts, a loop over the four attempts that
-- HORIZON_RETRY_CONFIG allows, by recursion on the attempts left; `Stellar.Sequence` is the cache of
-- sequenceCache.ts with withSequenceRetry, and `Stellar.Sequence.Turns` the queue of promises in
-- its withAccount, as steps of callers that come, start, settle and leave, with
-- `Stellar.Sequence.Turns.Progress` on the way to the end of a queue. `Stellar.Trustlines` has
-- the amounts, getTrustlineLimit and the checks of revokeTrustline of trustlines.ts,
-- and `Stellar.Batch` assertValidBatch and the operations of a batch of batchPayments.ts, with
-- attributeFailure in `Stellar.Blame`. `Stellar.Errors` is toStellarError of errors.ts, and
-- `Stellar.Errors.Mapped` mapHorizonError of backend/src/api/utils/horizonError.ts, with the tables
-- of both in `Stellar.Errors.Tables`; `Stellar.Errors.Rejected` compares the two. Horizon, the clock
-- and random numbers are parameters.
--
-- Http, backend/src/api/utils and backend/src/api/middleware. `Http.Pages` is utils/http.ts,
-- `Http.Tokens` utils/sessionToken.ts, `Http.Guards` middleware/auth.ts and `Http.Idempotency`
-- middleware/idempotency.ts. `Http.SignIn` is backend/src/api/routes/auth.ts, with its map of pending
-- challenges, and `Http.SignIn.Once` and `Http.SignIn.Issued` its theorems; `Http.Webhook` is
-- middleware/webhookSignature.ts. Cryptography, JSON and the parsing of numbers are parameters.
--
-- Payments, backend/src/contracts and backend/src/api/routes/transactions.ts. `Payments.Memos` is
-- buildMemo of memo.ts, on texts as lists of code points; `Payments.Signers` the signers of an account
-- with the sort and the loop of buildMultiSigPayment, whose checks and answer are in
-- `Payments.MultiSig`; `Payments.Submit` has submitPayment, buildUnsignedPayment and submitSignedXdr
-- with the routes that call them; `Payments.Signing` is signing.ts, and `Payments.Validation`
-- xdrValidation.ts. A payment that is submitted drops the cached balances of its accounts: the cache,
-- backend/src/cache/balances.ts, and GET /balances/:publicKey are `Balances`, where requests and
-- payments interleave as steps on Redis. The Stellar SDK, Horizon and Redis are parameters.
--
-- Operations, backend/src/contracts. `Operations` has issueAsset and burnAsset of assets.ts,
-- establishTrustline of trustlines.ts and claim of claimableBalance.ts, which submit one operation each
-- through withSequenceRetry and submitTransaction, with its retries, and then drop cached balances;
-- what of them is on the ledger is `Operations.Sent` and `Operations.Issued`, where the ledger is a
-- parameter with its laws.
-- `Operations.Direct` has what goes past the sequence cache: distributeAsset and setTrustlineFlags, with `Operations.Direct.Flagged` on it, and
-- the transactions that are left to be signed; `Operations.Data` is manageData.ts. `Assets` has the
-- reads of assets.ts: the pages of getAssetHolders are read on fuel, of which `Assets.Holders` needs one
-- round more than there are accounts.
--
-- Listings, the listings of backend/src/api/routes. `Listings` has the two statements that each of
-- them sends and `Listings.Pages` what its pages are together; `Listings.Histories` has the routes of
-- transactions.ts, balances.ts, communities.ts and reputation.ts that are such listings or sums over
-- rows, and `Listings.Export` the export of transactions as CSV. The ORDER BY of each statement and the
-- full-text search of PostgreSQL are parameters; `Listings.Histories.Ordered` says when orders agree.
--
-- Not modelled: the shapes of texts that the schemas check, HTTP itself, logging and rate limits;
-- offers, fee bumps and the inspection of XDR, which are calls of the Stellar SDK; and the frontend's
-- pages and calls of the backend.
pub mod Assets
pub mod Balances
pub mod Base
pub mod Communities
pub mod Frontend
pub mod Http
pub mod Listings
pub mod Loans
pub mod Migrate
pub mod Operations
pub mod Payments
pub mod Prices
pub mod Stellar
pub mod TokenRoutes
