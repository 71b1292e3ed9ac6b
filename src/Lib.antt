-- ===== src/Lib.antt =====
-- The verification library of this repository: the services that keep users' money (user-service and
-- transaction-service), the outbox between them, and the parts of the shared libraries they stand on.
--
-- The program. A client's request reaches transaction-service by gRPC through the gateway: `depositRub`
-- asks user-service to check the balance, has YooKassa create a payment and stores a pending
-- transaction; `transferRub` stores the two legs of a transfer and an event. YooKassa's webhook completes
-- or cancels a deposit. Events lie in an outbox table in the database of the service that writes
-- them; a worker sends them to Kafka; user-service credits or moves the money, records the key of the
-- message, and puts its answer in an outbox of its own; transaction-service consumes that answer and
-- finishes the transaction or tries the event again.
--
-- Which file models which part, with paths from the repository's root:
--   Base: the conditional, lists, options, the integers, the results of calls, tables of rows, and rules
--     by which a database transaction preserves a relation.
--   Contracts: contracts/kafka, contracts/rmq and shared/enums.
--   Outbox: the table `outbox_events` with `findUnprocessedEvents` and `markEventsAsProcessed`;
--     Outbox/Worker: `processOutbox` of libs/outbox/abstracts/outbox-worker.abstract.ts with `publishEvent` of
--     the two outbox-worker.service.ts; Outbox/Batch proves.
--   Balance: the tables of apps/user-service/prisma/schema.prisma; Balance/Repository:
--     apps/user-service/src/core/repositories/balance.repository.ts, one function for each method, with the
--     body of each `$transaction` and its guards as functions of their own; Balance/KafkaService, Service
--     and Money: balance-kafka.service.ts and balance.service.ts of apps/user-service/src/feat/balance,
--     and shared/extensions/bigint.extension.ts. Rows, Total, Effects, Transfer, Funds, Deposit, Keeps,
--     Steps, Once, Ready, Consumed and TransferConsumed prove. Balance/Ledger is an abstract ledger, a map
--     of accounts and currencies to amounts with a set of keys, and its children compare the repository with it.
--   Account: `findBy` of apps/user-service/src/core/repositories/account.repository.ts; Auth/Repository: its
--     methods that write. Auth/Service: `register`, `resend` and `verify` of
--     apps/user-service/src/feat/auth/auth.service.ts with core/hash/hash.service.ts; Auth/Passwords:
--     apps/user-service/src/feat/account/account.service.ts. SignUp and Opening prove.
--   Users: the tables that the queries of users read; Users/Repository:
--     apps/user-service/src/core/repositories/users.repository.ts; Users/Cache: core/cache/cache.service.ts;
--     Users/Service: feat/users/users.service.ts; Users/Active: `findActive` of both. Cursor, Distinct, Order, Pages, Key, Coherent and History prove.
--   Profile: feat/profile/profile.service.ts and core/repositories/profile.repository.ts of user-service;
--     Profile/Avatars: feat/avatar/avatar.service.ts and core/repositories/avatar.repository.ts; Profile/Limit proves.
--   Files: apps/file-service/src/file.service.ts with its calls of user-service; Files/Created and Upload prove.
--   Session: `login`, `refresh` and `logout` of apps/user-service/src/feat/auth/auth.service.ts over
--     apps/user-service/src/core/session/session.service.ts; Session/Changes and Rotation prove.
--   Transaction: the tables of apps/transaction-service/prisma/schema.prisma; Transaction/Queries,
--     Repository and Retries: apps/transaction-service/src/core/repositories/transaction.repository.ts; KafkaService, Webhook and
--     GrpcProcess: processes/kafka/kafka-process.service.ts, processes/webhook/yookassa-webhook.service.ts
--     and processes/grpc/grpc-process.service.ts of apps/transaction-service/src. Advance, Calls, Steps, Payment,
--     Retry, Exhaust, Settled with Settled/Pair, Transfer, Verified and Requests prove.
--   Proxy: the circuit breaker of libs/proxy/client/abstracts/proxy-client.abstract.ts; Proxy/Breaker proves.
--   Otp: apps/user-service/src/core/otp/otp.service.ts; Otp/Guesses proves.
--   Grpc: the retries of libs/grpc/client/abstracts/grpc-client.abstract.ts and the statuses of
--     libs/grpc/client/filters/grpc-exception.filter.ts; Grpc/Client proves.
--   Guards: libs/grpc/server/guard/grpc-auth.guard.ts, libs/proxy/server/guards/headers.guard.ts and
--     two of apps/gateway/src/common/guards; Guards/Calls and Headers prove.
--   Flow: a transfer through both services, from `transferRub` to `transferToAccount`; Flow/Checks has its lemmas.
--   The modules named Tests run the definitions on small data.
--
-- How code becomes definitions. A function has the name of its method, in snake case. A table is a list of
-- rows in the order of insertion; a query is a filter or an update by the same condition, in the
-- order of the rows where it asks for none. The body of
-- a `$transaction` is a function that returns a value and the new tables, or what it throws;
-- `transact` runs it as one atomic step and drops the tables of a body that throws: the row locks and
-- the unique columns of the source are what makes a step atomic. A unique column is checked by `create`. What `uuidv7()` and the
-- clock return are arguments. An identifier, and a text that the program only compares, is a number; the
-- idempotency key of a transaction, which the code extends by a suffix, is a list of characters. A
-- `bigint` is an integer; the text of an amount is what `BigInt(text)` reads from it, or nothing
-- where that throws. A balance stays in `amount_ok`: the `CHECK (amount >= 0)` of the migrations and
-- the range of `BIGINT`. In the OTP service Redis is a cell per account and purpose, and an expiry is
-- an event; `sha256` is a parameter. The answers of YooKassa, of another service and of the broker are
-- parameters or arguments; so are argon2, the signing and checking of tokens, whose answer depends on the time, the database's `ILIKE` and the text of an id. What
-- `SCAN` returns is a list of batches, up to the one with which it ends. Each recursion is on a list or on the
-- number of retries that are left, but for two with fuel: `digits`, the text of a number, which never has more
-- digits than the number and one, and `collect`, a client that follows the pages, for which one call more than there are rows is
-- shown to be enough.
--
-- Not modelled: the gateway's controllers and validation; the streams of the file service to S3; the job, mail and notification
-- services; the moment at which the cache is cleared, which is taken to be over before the
-- next request; the factories of libs/; generated code
-- (contracts/grpc/gen); log output; the columns `createdAt` and `updatedAt` of balances, foreign
-- keys, and the widths of the columns but for `BIGINT` of a balance. `toDollarsInt` returns a floating-point
-- number, so a notification keeps its amount in cents.
pub mod Base
pub mod Contracts
pub mod Outbox
pub mod Account
pub mod Balance
pub mod Transaction
pub mod Proxy
pub mod Otp
pub mod Grpc
pub mod Flow
pub mod Session
pub mod Users
pub mod Auth
pub mod Profile
pub mod Files
pub mod Guards
