-- ===== src/Lib.antt =====
-- The core of the backend of a market place: its schema migrations, the XP ledger with rewards and
-- withdrawals, the payment of orders with its ledger and webhooks, the reconciliation of sellers'
-- settlements, subscriptions bought in the Play Store, the fulfilment of merchants' orders, the life of
-- batches, the outbox of e-mails, the configuration, and the middleware that bounds, limits and
-- identifies requests.
--
-- Parts and files:
--   Prelude           shared names, tests on numbers, lists, integers, byte texts, Go results
--   Migrations        internal/migrations/runner.go
--     Splitter        splitSQLStatements, scanDollarTag: a lexer as a scanner state and one step for
--                     each byte; Lossless and Closed hold its theorems; Round, Segment and Copies their
--                     lemmas
--     Runner          Run, loadMigrationNames, applyMigration, markApplied over a `World`, which is
--                     PostgreSQL and the file system; Pass and Order hold its theorems, Pending lemmas
--   Xp                internal/controllers
--     Rows            the rows of the tables
--     Tables          the statements that several handlers share (availableXP and insertNotification
--                     among them)
--     Rewards         reward_service.go: award, AwardWelcome, AwardDailyLogin, AwardPurchase
--     Withdrawals     xp_withdrawals.go: RequestWithdrawal, and releaseUnusedXP of xp_redemption.go
--     Review          xp_withdrawals.go: AdminReviewWithdrawal
--     Redemptions     xp_redemption.go: xpDiscount, validateXPReservation, consumeXP, ReleaseXPQuote;
--                     Laws holds its theorems
--     Conservation, Invariant, Moves, Opened, Requests   the theorems on withdrawals
--   Payments          internal/controllers/payment_ledger.go
--     Attempts        selectPaymentMethods, settlePaymentLedger; Laws holds their theorems
--     Webhooks        beginPaymentWebhook, finishPaymentWebhook, and sequences of deliveries
--     Tables, Orders  payment_controller.go: settleOrderPayment; it settles the attempts of Attempts
--                     and takes the points by consumeXP of Xp; Once holds its theorems, Paid lemmas
--     References      payment_controller.go: newPaymentReference, parseOrderID
--   Play              internal/playbilling
--     Money           order.go: googleMoney.minor
--     Receipts        client.go: validate; Active holds its theorem, Granted its lemmas
--     Orders          order.go: verifyOrder, and Verify of client.go behind the requests to Google
--     Tables, Purchases, Process   store.go: Process, up to the commit; Books and Ownership hold its
--                     theorems, Entries lemmas
--   Fulfillment       internal/controllers/merchant_fulfillment_controller.go
--     Routes          the transitions of the two routes, and the stages that buyers see
--     Tables          the tables, and the statements on them
--     Transition      transitionFulfillment
--     Bulk            TransitionMerchantOrder, BulkTransitionMerchantOrders and their parsing
--     Manifests, Dispatch   CreateMerchantManifest, TransitionMerchantManifest
--     Chains, Traces, History, Departure   the trace of a fulfilment in its events, an invariant
--     Progress, Steps, Members, Replay, OneByOne   their lemmas, and theorems on requests
--   Email             internal/services/email_outbox.go
--     Outbox          the tables, queueUserEmail and the functions that queue a mail
--     Claims          the claim of RunEmailDeliveryBatch
--     Delivery        RunEmailDeliveryBatch, deliverEmail, failEmail, retryEmail
--     Queueing, Posting, Attempts, Effect, Effects, Finished, Only, Refused   their theorems
--   Config            internal/config
--     Policy          subscription_policy.go; PolicyModel holds what it promises, and the refinement
--     Validate        validate.go, and DevLoginAllowed of config.go; Accepted holds its theorem,
--                     Promises and Connections what it says of the parts of a configuration
--   Settlement        internal/controllers/settlement_reconciliation.go
--     Values          settlementNumericID, optionalSettlementAmount, normalizeSettlementStatus, with
--                     gatewayID, amountValue and firstNonEmpty of payment_controller.go
--     Tables, Apply   applyFlutterwaveSettlement, on payments and ledger rows
--     Kept, Moves     its theorems
--   Batches           internal/controllers/batch_lifecycle_controller.go
--     Rules           batchActionSpecs, validateBatchAction, validateBatchActionPayload, and the roles of
--                     internal/auth/admin_roles.go
--     Tables, Transition   TransitionBatch and CloseExpiredBatches; Laws holds their theorems, Steps
--                     the steps that a batch may take
--   Workers           internal/config/worker_roles.go and the check in internal/workers/roles.go
--   Middleware        internal/middleware
--     Admission       admission.go, as a step relation of a server
--     ClientIp        client_ip.go
--     RateLimit       distributedRateLimit and publicCacheablePath of scale.go
--
-- A handler is a function from its inputs and the tables to the committed tables with a reply, or to
-- the error behind which the transaction is rolled back. Which statements the database refuses is an
-- input (`Faults`). Rows stand in lists; a unique index is the test of an insert. The advisory lock of a
-- user makes the transactions of a user follow each other, so that a sequence of handlers is a
-- composition of functions.
--
-- Numbers are unbounded where the program holds them in database columns; amounts of money are whole
-- kobo. No definition runs on fuel: all loops go through a list or a text.
--
-- Not modelled: the listings, which only read; prose of notifications and of errors; HTTP, SQL and
-- JSON as such; the exchange with the gateway and with Google, the handlers of webhooks around the
-- parts above, the acknowledgement and the refunds of Play purchases behind the commit of Process; and
-- the other parts of the backend (chat, community, catalog, referrals).
pub mod Prelude
pub mod Migrations
pub mod Xp
pub mod Middleware
pub mod Settlement
pub mod Payments
pub mod Batches
pub mod Workers
pub mod Email
pub mod Fulfillment
pub mod Play
pub mod Config
