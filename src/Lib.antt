-- ===== src/Lib.antt =====
-- Verification of the bidding platform: auctions in PostgreSQL, on which bids are placed concurrently by
-- one of three strategies, behind an HTTP and WebSocket API.
--
-- The parts, and the files that model them (paths of the repository on the right):
--   Domain.Models, Domain.Outcome   src/bidding/domain/models.py: the values and their constructors
--   Domain.Rules                    src/bidding/domain/rules.py: evaluate_bid and what it uses
--   Db.Tables                       src/bidding/db/sql/001_initial_schema.sql, src/bidding/db/mappers.py
--   Db.Statements, Db.Perform       the SQL statements of src/bidding/db/strategies.py, one transition each
--   Db.Program, Db.Strategies       src/bidding/db/strategies.py: the strategies as programs of statements
--   Db.System, Db.Solo              connections that run such programs side by side, or one alone
--   Db.Sequential                   one request alone: its specification, which the strategies refine
--   Db.Repository                   src/bidding/db/repositories.py
--   Db.Pool                         src/bidding/db/pool.py
--   Checker                         src/bidding/verification/invariants.py
--   Migrations                      src/bidding/db/migrations.py
--   Config                          src/bidding/config.py
--   Api.Requests, Api.Replies       src/bidding/api/schemas.py: bodies with their validators, responses
--   Api.Service                     src/bidding/application/service.py
--   Api.Handlers, Api.Visits        src/bidding/api/routes.py
--   Api.Sockets, Api.App            src/bidding/api/websockets.py and app.py
--   Benchmark                       src/bidding/benchmark/cli.py, models.py and runner.py
-- The remaining files hold proofs: Domain.Verdicts and Domain.Snapshots on the domain; Db.Protocol
-- (what a connection may rely on and what it owes before a commit), Db.Safety (each strategy keeps to
-- that), Db.History and Db.Soundness (then every step keeps the histories), and Db.Guarantees (what
-- follows for concurrent bids). Prelude has the shared names and lemmas, Tests the runs and examples.
--
-- A strategy is a value of `Prog`: a tree of statements with a continuation for every answer, errors
-- included; `attempt` is try and except, `transaction` is the `with` block of a pooled connection,
-- COMMIT on return and ROLLBACK on an exception. The system is any number of connections, the
-- committed tables and a clock. A step runs one statement of one connection, fails it with any error,
-- or advances the clock, so that timeouts, deadlocks and lost connections are among the failures.
-- Statements see the committed tables and the writes of their own transaction (READ COMMITTED). Row
-- locks and unique keys make others wait. A failed statement ends its transaction at once. A
-- statement reads the clock once, between the end of the connection's previous statement and the
-- present; new identifiers are arbitrary.
--
-- Money, versions and instants are native natural numbers; the ranges that the code and the columns
-- check are checked in the model, BIGINT overflow included. A Python value whose type the code tests is
-- a `Value`, a datetime has an instant and the two tests of awareness, text is a list of code points.
-- The attempts of the optimistic strategy are a structural recursion on the attempts left. Only
-- `decimal`, which writes the digits of n, has fuel: n + 1, which is more than there are digits, so that
-- `int` reads the number back.
--
-- What psycopg can send and load is an argument of `create` in Db.Repository; the statements of the
-- strategies take every text. The exceptions of a socket are arguments of the WebSocket handler.
--
-- Not modelled: the share lock that a foreign key takes on the auction row (the model allows more
-- interleavings), new auctions while bids are placed, a commit whose answer is lost after it took
-- effect (a statement that fails at the commit has no effect here, so nothing is stated of what a
-- request that ended with an error has committed), a bidder with U+0000 in it, which psycopg refuses
-- to send, the texts of errors and of the checker's details, the checks of pydantic, the conversion of
-- a text to a float, the pool of psycopg, the health check and the wiring of FastAPI, the
-- listing and reading of migration files, and of the benchmark the seeding and running of trials and
-- the report.
pub mod Prelude
pub mod Domain
pub mod Db
pub mod Config
pub mod Api
pub mod Checker
pub mod Migrations
pub mod Benchmark
pub mod Tests
