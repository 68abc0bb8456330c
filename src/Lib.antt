-- ===== src/Lib.antt =====
-- Verification of the Rust backend of pokemon-rs: a service that keeps slot-machine sessions and
-- wallets, records every action as an event and as an experience for reinforcement learning, and
-- exports the experiences. It is the crates controller and cli.
--
-- The parts and how they interact
--
-- A request passes two layers of cli/src/server.rs, authentication and then the rate limit, and
-- reaches its handler. A handler works on the shared application state (controller/src/app_state.rs),
-- which holds the repositories, the configured keys, the limiter and the counters. An action goes
-- through the session manager, which asks the state engine whether the session may change its
-- state and writes the new state to the session repository; the handler then computes the reward
-- and adds an event and an experience to their stores.
--
--   StateEngine     controller/src/state_engine/mod.rs: `transition` and its table; Graph has the
--                   machine as a relation.
--   Domain          controller/src/app_state.rs: errors, configuration, the repository traits as
--                   records of operations; Laws has what a session repository promises.
--   Persistence     controller/src/persistence_metrics/mod.rs: the stores in memory.
--   Manager         controller/src/game_session_manager/mod.rs, over any repository; Histories is
--                   about sequences of calls, Race about two calls interleaved, Schedules,
--                   Interleavings and Termination about any number of them.
--   Auth            controller/src/auth.rs.
--   RateLimit       controller/src/ratelimit.rs.
--   Metrics         controller/src/metrics.rs.
--   Events          controller/src/event_store.rs.
--   Rl              controller/src/rl_feedback_loop: Reward, Store (with the experience), Export.
--                   Store/Contract has what the trait of the stores promises, Store/Memory and
--                   Store/Postgres are the two stores, Store/Histories is about their clients.
--   Fingerprinter   controller/src/fingerprinter: the store, and Extraction.
--   Simulator       controller/src/simulator_human_proxy/mod.rs.
--   AppState        controller/src/app_state.rs: the state that the handlers share.
--   Config          cli/src/config.rs.
--   Cli             cli/src/main.rs: from the environment to the state that the server runs on;
--                   Start is about the process, Replays about the store that it opens.
--   Server          cli/src/server.rs: the handlers; Middleware the layers, Router the routes, Http
--                   cli/src/error.rs, Statuses the status of every answer. Recording what
--                   an action leaves behind. Race has the action handlers as concurrent threads of
--                   atomic steps, one alone (Alone), the events of any number of them (Steps and
--                   Logged), the stored states (Sessions), and two that leave a stale record
--                   (Stale). Tasks has whole requests as such threads, through both layers and
--                   any route: one alone (Alone), their number of steps (Steps, Answers,
--                   Termination), and what any schedule of them leaves true (Wallets, Sessions;
--                   Unserved and Atomicity order the accesses to the wallets). Ledger is the
--                   service seen from outside, an abstract state with bags in the place of lists, with the answers that it allows
--                   (Outcomes) and the refinement; Spending is about its wallets.
--   Api             controller/src/api.rs.
--   Float, Json     what the code uses of f64, serde_json and chrono, as interfaces with laws;
--                   Float/Fixed and Json/Plain are concrete instances that meet the laws.
--   Prelude         names, lists, maps, results and sorting that the modules share.
--   Tests           concrete data on which each theorem is applied.
--   Conformance     the tests that stand beside the Rust code, run on the model.
--
-- How state and operations correspond to the code
--
-- A struct is a record and an enum a data type. A method on an object with interior mutability is
-- a function from the state to the new state and the result (`Method`, with do blocks for `?`), and
-- carries the name of the Rust function; repository methods that collide carry the name of their
-- object (`session_create`, `wallet_create`). A `HashMap` is an association list with one entry a
-- key. What a function draws from outside, an identifier or the time, is an argument. A `Uuid` is a
-- number and a text a list of code points. Counters and hashes are numbers whose wrap-around is
-- written out.
--
-- Bounds: nothing in the code loops without a structural bound; the hash works bit by bit on 64 bits
-- and the signature on 16 digits, which the hash fits. Sorting is insertion sort, as a stable sort
-- has one result only.
--
-- The service is modelled over any store of experiences. The database behind PostgresRlStore is a
-- parameter: two statements on a state, with what its manual says of them as named hypotheses
-- (`IsTable`), which the table of Rl/Store/Postgres/Table.antt meets.
--
-- Concurrency: a thread runs from one access to shared state to the next as one step, and the
-- accesses of all threads stand in one order. The locks give that order; the counters are relaxed
-- atomics, each of which has one order of its own.
--
-- What is not modelled: the migrations (SQL), the connection pool and the listener, serialisation by
-- serde, the extraction of requests by axum, logging, and the fail-open branches on poisoned locks,
-- which do not occur since nothing panics while a lock is held. `sqrt`, `ln` and `cos` are
-- parameters without laws. The TypeScript agents and the frontend are other programs.
pub mod Prelude
pub mod StateEngine
pub mod Float
pub mod Api
pub mod Domain
pub mod Persistence
pub mod Manager
pub mod RateLimit
pub mod Metrics
pub mod Auth
pub mod Json
pub mod Events
pub mod Rl
pub mod Fingerprinter
pub mod AppState
pub mod Simulator
pub mod Cli
pub mod Conformance
pub mod Config
pub mod Server
pub mod Tests
