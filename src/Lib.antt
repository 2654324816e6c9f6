-- ===== src/Lib.antt =====
-- A verification library for the Telegram media downloader bot.
--
-- The program accepts Telegram updates through a webhook, keeps them in a durable job store, and a
-- worker claims them, downloads the media through a pipeline of providers and records what was
-- delivered. This library models parts of it as functions of an explicit state, and states what the
-- parts promise.
--
-- Parts and files:
--   * JobStore: app/core/job_store.py, class JobStore. Schema has the four tables, Lease the worker
--     lease and the health probe, Inbox the acceptance of updates, Claims and Transitions the life of
--     a job, Deliveries the receipts, Context the helpers of the delivering code, Retry the retirement
--     of failed jobs, Maintenance the requeue and the purge. A method is the function of the same
--     name; where the source has a public method and a `_…_sync` method, the public one keeps its
--     checks and the other one its SQL. Call and Steps turn a call into a step from tables to tables.
--   * Worker: app/core/drain.py, the processing of one job by DurableUpdateWorker over the JobStore.
--     Process has it as a function of what the handler did and how it ended.
--   * DownloadQueue: app/core/download_queue.py. State has the leases and waiters and what each
--     critical section does to them, Steps the orders in which the event loop can run these.
--   * Registry: app/services/media/registry.py, the circuit breaker of provider routes.
--   * Limiter: app/core/limiter.py, class TokenBucketLimiter, without the limiter that a script of the
--     Redis store implements. Level and Spending say what a caller sees of it.
--   * ProxyPool: app/services/media/proxies.py, class MediaProxyPool: Routes has the pool's operations,
--     Extract the loop over the routes, the other files what they promise.
--   * Candidate: app/services/media/validation.py, with the records of app/services/media/models.py:
--     Validate has the checks in the order of `validate_candidate`, Serves what they are for; Usable
--     and Complete relate the two.
--   * Disk: app/core/resource_budget.py. Budget has the reservations and what each critical section of
--     the budget does, Markers the lease sidecars of their files, Promote the rename with its way back,
--     Operations all of these as values. Which file operations raise is an argument of each.
--   * Cache: app/core/media_cache.py, without Redis. Memory has what MediaCache does under its lock,
--     Calls the map without a bound that it stands for, Leases the class MemoryLeaseManager, and
--     Requests its callers.
--   * Flight: app/services/media/singleflight.py. Group has the critical sections of a SingleFlightGroup,
--     Steps the orders in which they can run.
--   * Sql and Json: the statements and values that the source uses, on lists of rows and of fields.
--   * Prelude: shared names, lists, dictionaries, objects with identifiers and decimal numbers.
--
-- How the code is read:
--   * A table is a list of rows in the order of insertion, NULL is `none`, and a JSON column is the
--     value that it decodes to. UPDATE is `update_where`, its row count `count_where`, and
--     INSERT … ON CONFLICT a search for the row with the key.
--   * A transaction (BEGIN IMMEDIATE to COMMIT) is one step. A raise is `raise`, with no tables: the
--     transaction is rolled back and the step keeps the tables it started from.
--   * Clock readings are natural numbers of one small unit and every call has its own; nothing is
--     assumed of their order but where a theorem says so. Update identifiers are natural numbers, and
--     a statement that binds one of 2 ^ 63 or more raises, as SQLite does.
--   * `str` prints decimals with fuel n + 1, which is more than the digits of n. The walk along
--     supersessions has as fuel the number of rows and two more, and is proved to stop before the
--     fuel does, because the set of seen jobs grows with each round.
--   * Lengths, sizes and edges are natural numbers, which `None or 0` makes of absent ones; an index of
--     an album selection may be negative. What a provider supports is a parameter.
--   * A critical section of asyncio code is one step; an operation that waits is one step before and
--     one after the wait. `asyncio.wait_for` cancels at its timeout and then waits for the end of the
--     operation, so what it takes to end, and what it answers instead, are arguments.
--
-- Not modelled: the schema migrations and pragmas of the job store, the variants that keep their state
-- in Redis, the drain and the loop around the worker, the lock files of lease markers, the race of
-- providers and the media pipeline, the text of messages, and the parts of the program that are
-- mainly input and output (providers, transport, ffmpeg, Telegram, the web framework).
pub mod Prelude
pub mod Json
pub mod Limiter
pub mod ProxyPool
pub mod Registry
pub mod Sql
pub mod Cache
pub mod Candidate
pub mod Disk
pub mod Flight
pub mod DownloadQueue
pub mod JobStore
pub mod Worker
