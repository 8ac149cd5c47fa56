-- ===== src/Lib.antt =====
-- Learnault API: a model of the services that keep money, jobs and sessions in order, and what holds
-- of them.
--
-- The program is an HTTP API over a relational database. The parts that are modelled, and how they
-- work together:
--
--   - Money (src/utils/money.ts): amounts in stroops and their decimal texts. Every amount that a
--     reward or a withdrawal moves goes through it.
--   - Reward (src/services/reward.service.ts): the reward of a module, claims, referral codes,
--     balances, withdrawals and the history, on in-memory stores. The payment is a call of the Stellar
--     service: `Payment` says how it ended, and a call is cut there into what runs before the wait
--     and what runs after it (start_claim and finish_claim, start_withdrawal and settle_withdrawal).
--     Reward/Solvency has the interleavings of those pieces as a step relation.
--   - Jobs (src/lib/transactions/types.ts, outbox.service.ts, job-lease.service.ts): the tables of
--     outbox events, job attempts, rolled-back records and queue leases. Jobs/Outbox creates and marks
--     events, Jobs/Lease gives a job to a worker, Jobs/Finish completes, fails and resets it, and
--     Jobs/QueueLeases leases a whole queue by single conditional statements. `leaseJob`, `failJob` and
--     `resetJobForRetry` read a job and then write it by its id alone, under the database's default
--     isolation, so other calls can run in between: Jobs/Pieces cuts them there, with the calls that are
--     between their read and their write as part of the state. Jobs/Calls and Jobs/QueueLeases/Calls have
--     the runs in which no two calls overlap.
--   - Registry (src/lib/transactions/handler-registry.ts, event-schema.ts): the handlers by event and
--     by name, and the validators of payloads.
--   - Relay (src/workers/outbox-relay.ts): turns waiting events into jobs by the handlers of the
--     Registry, and dispatches the jobs through Jobs. Relay/Dispatch has one function for each
--     nested block of `dispatchOne`.
--   - Sessions (src/services/refresh-token.service.ts, session.service.ts): sessions and the rotation
--     families of refresh tokens. Sessions/Revoke and Sessions/Rotate have the refresh tokens' calls,
--     Sessions/Manage the listing and revocation of a user's sessions (list, revokeOne, revokeAll), on
--     the same tables. Sessions/Steps has every write of every call of the first service as a step, so
--     that rotations can interleave at their awaits.
--   - Otp (src/services/otp.service.ts): one-time codes.
--   - RateLimit (src/middleware/rate-limit.middleware.ts): the limiter and its store.
--   - Wallets (src/services/wallet-provisioning.repository.ts, src/jobs/wallet-provisioning.handler.ts,
--     src/types/wallet-provisioning.types.ts, src/services/kms): the wallet that a user reserves and the
--     job that provisions it. Wallets/Reserve, Wallets/Claim and Wallets/Finish have the repository's
--     calls (reserveEligibleWallet; claimNext, claimByWalletId and claimCandidate; complete and
--     recordFailure), each one transaction, and Wallets/Calls their runs. Wallets/Kms has the key
--     store's interface with the laws that its comments promise, and InMemoryEnvelopeKms as one that
--     keeps them. Wallets/Handle is the handler, over any such key store.
--   - Redaction (src/audit/redaction.ts): what the audit log stores of an object. Redaction/Patterns is a
--     matcher for the regular expressions of denied values, Redaction/Keys the denied field names,
--     Redaction/Walk redactMetadata and Redaction/Serialize serializeMetadata.
--   - Scheduler (src/workers/scheduled-job-runner.ts, queue-metrics.ts): a tick of a queue, which runs the
--     queue under a lease of Jobs/QueueLeases and books its outcome in the metrics; Scheduler/Runner is
--     the runner with its timers, its ticks in flight and its shutdown.
--   - Accounts (src/services/account-lifecycle.service.ts): deactivation, and the deletion of an account
--     after its cooling-off time. Accounts/Deletion has the calls of users, cut at their awaits,
--     Accounts/Sweep the finalization, and Accounts/Steps their interleavings with any number of
--     sweeps.
--   - Profiles (src/services/consent.service.ts, onboarding.service.ts, profile-serializer.ts,
--     profile.service.ts): consents as records that are only added, the onboarding that asks for them
--     (Profiles/Onboarding), and the views of a profile for employers and the public, which read the
--     current consents (Profiles/View), as does the owner's aggregate (Profiles/Owner). The calls run one
--     after another.
--
-- Base has the shared types: results that can throw, database tables as lists of rows with the queries
-- that the services use, integers over the native naturals, and lists.
--
-- A function of the source keeps its name in snake case, and a field of a row too. Ids, tokens, hashes,
-- codes, names, error texts and JSON payloads are only compared or passed on, and are numbers. Times
-- are milliseconds; the clock, random values and fresh ids are arguments. A table is the list of its
-- rows in the order in which the database returns them where a query names no order. BigInt amounts
-- are unbounded integers, and `assert_in_range` is the bound that the source puts on them. Texts of
-- amounts and of the audit log are lists of character codes (UTF-16 code units).
--
-- Parameters for code that is elsewhere: the payments, SHA-256, the signature of access tokens, the
-- validators of payloads, the handlers of events (a function of the database, so that whatever others
-- do meanwhile is its doing too), and the default idempotency key. The Stellar key pair, the cipher and
-- the faults of the key store are arguments of the wallet handler, the work of a queue is one of a
-- tick, and the texts of dates are arguments of the redaction.
--
-- Bounds: the loops run over lists, except the inner loop of `dispatchLeasable`, which the source
-- itself bounds by the batch size: `drain` recurses on it, so no other fuel is needed. The walk of the
-- redaction recurses on the levels that are left below `maxDepth`, which the source stops at: an object
-- that contains itself is given as a function from its identity to its content.
--
-- Simplifications: the role in an access token is left out, since it is a column of the user; the
-- back-off multiplier, a float column, is taken at whole numbers; the clock is read once in a run of
-- `materializePending` and in one of `processDue`; limits and offsets of the history are natural
-- numbers. A user's status is what the account calls change in Accounts, and only whether it is ACTIVE
-- in Profiles. The account calls' foreign keys hold: the user of a request is there.
--
-- Not modelled: the HTTP layer, request validation, the Stellar SDK, e-mail, push and webhooks (calls of
-- other services), the cipher of the key store; of the parts above, log lines and the reads that only
-- format rows. Data exports, the user account service, the classification of audit events and their
-- archive, the owner's views and updates of a profile, and storage are left for later.
pub mod Base
pub mod Money
pub mod Reward
pub mod Jobs
pub mod Registry
pub mod Relay
pub mod Sessions
pub mod Profiles
pub mod Wallets
pub mod Redaction
pub mod Scheduler
pub mod Accounts
pub mod Otp
pub mod RateLimit
