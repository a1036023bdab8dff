-- ===== src/Lib.antt =====
-- The common API: a multi-tenant backend with sign-in, a point wallet, orders and jobs.
--
-- The wallet keeps points in lots, a ledger of every movement and the idempotency keys of its
-- requests. Orders debit the wallet for products and credit it back on a refund. Jobs are rows
-- that a scheduler runs with retries, or messages on a queue, and the polling service moves
-- messages from the source queues to the main queue.
--
-- Base, Exceptions, Action: tables and queries over native numbers, the exceptions that the
--   services throw, and methods over a state with transactions that roll back on a throw.
-- Wallet: src/modules/point/point.service.ts with its repositories,
--   src/common/repositories/idempotency-key.repository.ts and the entities of
--   src/database/entities. Wallet.Entities has the rows, Wallet.Repository one function for each
--   query, Wallet.Service one for each method; the rest are proofs.
-- Order: src/modules/billing/services/order.service.ts with its repositories. Order.Service has
--   the placement and the refund over the state of the wallet; a commit that may fail is an
--   argument. Order.Products is src/modules/billing/services/product.service.ts.
-- Job: src/modules/job/job.service.ts, its repository and
--   src/modules/job/services/message-processor.service.ts. Job.Processor has the call of each
--   execution type, Job.Service the runs with retries, Job.Creation the unified jobs that are made,
--   Job.Consumer the messages of the main queue.
-- Polling: src/modules/job/services/multi-queue-polling.service.ts. Polling.Transform makes a
--   unified message of a source message, Polling.Service moves messages from queue to queue.
-- Auth: src/modules/auth with src/modules/user/repositories/user.repository.ts. Auth.Repository has
--   the queries, Auth.Profiles what is read of an OAuth profile, Auth.Service the methods.
-- Admin: src/modules/admin/admin.service.ts, src/modules/user/user.service.ts and
--   src/modules/platform/platform.service.ts. Admin.Users has users and their status,
--   Admin.Adjusting the changes of wallets, Admin.Platform the apps and their secrets.
-- Http: src/common. Http.Filter has what the client is told of an exception, Http.Guards the
--   guards and the tenant, Http.Requests and Http.Admission the way of a request through them,
--   Http.OauthState the state of an OAuth sign-in, Http.Redirects the validator of redirect
--   addresses.
-- Tests: the theorems at concrete inputs.
--
-- The state is explicit: a table is a list of rows, an identifier that the database generates is
-- the next number, and time is a number of milliseconds. Loops are recursion on the list that the
-- code walks, so no fuel is used. The hash of a request, the outside world's answers to calls, the
-- URL, JSON and token libraries and the texts of numbers are arguments. An error message leaves
-- out the values that the code puts into it. The order of rows with equal dates is an argument of
-- the paged reads, and that of their insertion elsewhere. The columns of the wallet refuse what
-- they cannot hold; which rows of jobs the database takes is an argument, foreign keys are taken
-- as met, and plainToInstance and instanceToPlain to keep the fields of a message. Not modelled:
-- the body of a successful response, the OAuth strategies of Passport, controllers, logging and
-- configuration.
pub mod Base
pub mod Exceptions
pub mod Action
pub mod Wallet
pub mod Admin
pub mod Auth
pub mod Http
pub mod Job
pub mod Order
pub mod Polling
pub mod Tests
