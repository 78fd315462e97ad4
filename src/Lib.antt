-- ===== src/Lib.antt =====
-- LEX OS: the document pipeline, the processing budget of a case, and the accounts of its people.
--
-- A file of a case goes through a pipeline of jobs (virus scan, validation, OCR, classification,
-- entities, timeline, checklist, embedding). A worker claims a job and reserves its quoted cost in
-- the budget of the case, calls a provider, and records a completion, a retry or a failure. A
-- completion stores the result, spends the measured cost, releases the reservation and queues the
-- next job. People change the limit of a case and cancel jobs. The transactions of all of them
-- meet in the tables `processing_jobs` and `cases`. The processor of the worker joins these parts:
-- a delivery of a message from a queue is a claim, a stage, and a completion, a retry or a failure,
-- and a completed stage publishes the message of the next one. The stages and the API share
-- helpers: the cut of a text into chunks, the text of second-factor secrets, and the numbers of
-- court cases, persons and companies.
--
-- The accounts are the other part. A login is counted in Redis, checks the password and a second
-- factor, and opens a family of refresh sessions. A refresh exchanges a token for the next one of
-- its family; a token that is presented twice closes the family. A logout, or a password reset,
-- closes sessions too. A guard asks for the session of each access token, and another for the
-- permissions of a route.
--
--   Prelude               shared names, Boolean tests, lists, tables and results
--   Processing/Status     apps/worker/src/processing/job-state-machine.ts and the queues of
--                         packages/contracts/src/index.ts
--   Processing/Cost       `costDecimal` of apps/worker/src/processing/processing.repository.ts
--   Processing/Rows       the rows of packages/database/prisma/schema.prisma
--   Processing/Store      the tables, queries and updates; `withTransaction` of
--                         packages/database/src/client.ts
--   Processing/Target     `jobTargetSelect` and `assertTenantRelationships` of the repository
--   Processing/Claim      its `claim`
--   Processing/DeterministicId   apps/worker/src/processing/deterministic-id.ts
--   Processing/Completion, Processing/Complete   its `StageCompletion` and `complete`
--   Processing/Budget     the settlement that `complete` and a failure share
--   Processing/Settle     its `retry`, `fail` and `cancel`
--   Processing/Limit      `updateProcessingBudget` of apps/api/src/cases/cases.repository.ts
--   Processing/Accounting the invariant of the money, one module for each operation, `Booked`, what
--                         an operation books and leaves of a job, and `Interleaving`, the steps of
--                         all actors in any order
--   Processing/Transitions, Processing/Blocking, Processing/CancelRace,
--   Processing/LostRace   further facts
--   Processing/Pipeline   a delivery, apps/worker/src/processing/pipeline-processor.service.ts:
--                         `Providers` (what the stages call; text-extraction.service.ts,
--                         processing-error.ts, the interfaces of review-processing.provider.ts and
--                         mock-processing.provider.ts), `Queries` (`availableDocumentTypeCodes`,
--                         `findChecklistTemplate`), `Stages` (`#executeStage`), `Process`
--                         (`process`, `#handleError`, processing-cost-policy.ts, `publish` of
--                         processing-queue.publisher.ts), and `Linked`, `Sound` and `Order`, proofs
--   Processing/Fixture, Processing/Tests, Processing/Pipeline/Tests   runs on a small store
--   Contracts             the messages, packages/contracts/src/index.ts; proof in `Accepted`, a run
--                         in `Tests`
--   Shared/Knowledge      packages/shared/src/knowledge.ts, proofs in `Boundaries`, `Normalized`
--   Shared/Base32         `encodeBase32`, `decodeBase32` of packages/shared/src/totp.ts, proof in
--                         `Rounds`
--   Shared/Digits, Shared/Cnj   packages/shared/src/cnj.ts, proofs in `Errors` and `Written`
--   Shared/CpfCnpj        packages/shared/src/cpf-cnpj.ts, proofs in `Valid`
--   Shared/Totp           the rest of packages/shared/src/totp.ts: `Steps` (`verifyTotp`), `Stored`
--                         (`encryptSecret`, `decryptSecret`)
--   Shared/Tests          runs of the helpers
--   Auth                  the accounts, apps/api/src/auth:
--     Rows, State         their rows, the tables and counters as one value, and what a request does
--     Attempts            login-attempt.service.ts
--     Sessions            `refresh` and `logout` of auth.service.ts, the sessions of auth.repository.ts
--     Guard               access-token.guard.ts, ../access-control/permissions.guard.ts
--     SecondFactor        second-factor.repository.ts, and the challenge and the enrolment of
--                         second-factor.service.ts
--     Login               `login` of auth.service.ts
--     PasswordReset       password-reset.service.ts, password-reset.repository.ts
--     Frame               how an operation keeps a property of the state
--     Families            the families of tokens, a module for each kind of step; `Steps`, in any order
--     Refused, SingleUse, NextStep, AttemptBounds, Accepted, Granted, Permissions   further
--                 facts; `Accepted` is about the challenge of a login
--     Fixture, Tests, FactorTests   runs on a small organization
--   Outbox                apps/worker/src/email/email-outbox.repository.ts, proofs in `Claims`, runs
--                         in `Tests`
--
-- The store is one value; a transaction is a function from it to a result with the new store, and
-- an error leaves the old one. What the source reads without a lock and writes under the guard of a
-- version (`updateMany … where version`, whose count it tests) is here a row that was read earlier,
-- against a store that may have changed, a cancellation's row included; a case is locked while it
-- is written, so a transaction is one step on it. An amount is a number of millionths: the columns
-- have six decimals, and `costDecimal` accepts no more. Amounts are not bounded; a subtraction is
-- made only after the source's test that it does not go below zero. The hash, the clock, the
-- reading of dates, the identifiers that the database draws, the providers, the storage, the choice
-- of a prompt, the decoding of UTF-8 and whether the queue takes a message are parameters; what may
-- throw is a parameter that gives an error or a value.
--
-- An operation on the accounts is a function from the state to a result and a state: an error keeps
-- what was written before it, but within a transaction, which goes back. An update under a guard
-- counts the rows that it changes, as `updateMany` does. A request brings its times, new identifiers
-- and new tokens; the hash of a token, the check of a password, HMAC-SHA1, the cipher of the stored
-- secret, upper case, and what the library answers of an access token are parameters. Redis is up
-- or down for a request, and forgets a key at the time that it expires. A refresh is one step on the
-- tables from a row that was read at any time before, so two of them may read the same row. The code
-- of a step below zero, which the platform refuses to write, is an error.
--
-- A text that is cut or checked is the list of its UTF-16 code units, a secret the list of its
-- bytes. A JavaScript shift is written as a product or a quotient, modulo 2 ^ 32. The loops that
-- are not on a list have fuel: the printing of a number has one round more than the number, the
-- loop of the chunks one more than the code units of the text (each round starts later), and the
-- inner loop of the encoding as many as there are bits (each round takes five).
--
-- Not modelled: the reconciler of stale jobs and the connection of the queues, the providers
-- themselves, the text of the e-mail about a failure and what happens when it cannot be queued,
-- the API apart from the limit of a case and the accounts, the signing of access tokens and the
-- address that an authenticator reads, the dispatcher of the e-mails, the web application, exports
-- and the texts of prompts.
pub mod Prelude
pub mod Processing
pub mod Shared
pub mod Contracts
pub mod Auth
pub mod Outbox
