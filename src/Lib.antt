-- ===== src/Lib.antt =====
-- Verification of the API of boostpow (src/ of the repository, in TypeScript): the jobs and proofs
-- of boosted content, and what is read from them.
--
-- The parts, and what models them:
-- - Base: lists, tests, and asynchronous code as functions from a state to a result and a state,
--   where an error keeps the state (Base.Action).
-- - Boost: src/boost.ts. Boost.Store has the rows of the tables boost_jobs and boost_job_proofs and
--   the state: tables, published messages, broadcast transactions, and the number of answers of the
--   network so far. Boost.Network has what is called and not implemented there (whatsonchain, the
--   broker, the packages boostpow and bsv, sequelize's findOne) as the record Env. Boost.Fetch has
--   fetch, fetchWithRetry and the parsing loops, Boost.Jobs persistBoostJob and the imports of jobs,
--   Boost.Proofs the imports of proofs, and Boost.Proofs.Ledger the map from outputs to spends that
--   the table of the proofs stands for.
-- - Handlers: src/server/handlers/boost_jobs.ts and boost_work.ts (the queries, show and
--   createByTxid), and the condition of src/miners.ts.
-- - Sockets: src/ws/plugin.ts, the connections of the websocket server, their subscriptions to the
--   broker, which are made once its channel is there, and what is sent; a run is a list of steps.
--   Sockets.Events has the queues' messages, the events and the runs, and Sockets.Announced joins it
--   with the messages of Boost.
-- - Importer: src/importer.ts, importProof and the map of open jobs, over Boost.
-- - Content: src/content.ts. Content.Outputs has parseEventOutputs and parseBOutputs, Content.Cache
--   has cacheContent over the table Contents, whose constraint on txid is unique. The packages txo,
--   bmapjs and bsv, the copy of easy-b and the remote services are the record Content.Env.
-- - Rankings: src/rankings.ts, rankContent, the condition of rankTags, and the cache by timeframe;
--   Rankings.Handled src/server/handlers/rankings.ts over it, and Rankings.Stale the requests and the
--   job of src/main.ts that refreshes the cache each minute.
-- - Feed: src/feeds/multi_day_feed.ts, over Rankings.
-- - Interests: src/personal_interests/index.ts, getSpend, getRemoval and removeInterest;
--   Interests.Imports has the import of interests and get_script_hashes.ts beside it. The writes to the
--   table are taken to succeed.
-- - Crawler: planaria/crawler.ts, src/crawlers.ts and src/spends.ts. A service answers a position, and
--   the list of the services of the rounds is an argument of the loop.
-- - Ingest: planaria/index.ts, which stores the jobs that a crawl finds, over Crawler and Boost.
-- - Repairs: find_spend_transaction.ts, over the tables of Boost.
-- - Shuffle: src/utils.ts. Shortcodes: src/script_shortcodes.ts.
-- - Tests: runs at concrete data.
--
-- Interleaving: Promise.all runs one task for each job. A task moves from one await to the next, so
-- a schedule, a list of the tasks that move, is an argument of the imports. After the schedule each
-- task moves five times, which is as often as it can need to end.
--
-- Fuel: only fetchWithRetry has it; its loop has no bound of its own. The endless loop of the crawler
-- is over the list of its rounds, a run of the websocket server over the list of its steps. The
-- recursion of the rest is on lists and on counts of outputs.
--
-- Assumed: where a theorem takes IsLookup, that findOne answers with a row that meets the condition
-- and with null only if there is none. Floating-point columns are carried as they are and never
-- computed with. Logging and delays are left out.
--
-- Not modelled: getBoostJob, the handlers create and build of the jobs, the handlers of the works but
-- the query of index, the routes of the server, the actors of the message broker but those of
-- src/ws/plugin.ts, the handlers in src/crawlers, the contracts, the migrations and models, and the
-- remote APIs' clients; src/server/handlers/lockups.ts and src/webhooks.ts, whose models are not
-- registered, so that their calls throw at the first query; and the import that
-- importBoostProofFromTxHex starts beside its own and does not await: what is modelled of that
-- function ends where the proof is read.
pub mod Base
pub mod Boost
pub mod Handlers
pub mod Sockets
pub mod Importer
pub mod Content
pub mod Rankings
pub mod Feed
pub mod Interests
pub mod Crawler
pub mod Ingest
pub mod Repairs
pub mod Shuffle
pub mod Shortcodes
pub mod Tests
