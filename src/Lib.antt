-- ===== src/Lib.antt =====
-- The crawler of the Ethereum network, its peer database and its API server.
--
-- The crawler (bins/reth-crawler) discovers peers, shakes hands with each, and saves what it
-- learns through the trait `PeerDB` (db). A service beside it remembers the hashes of the latest
-- blocks, by which a peer counts as synced. The API server (bins/api-server) serves the database.
--
-- Which file models what:
-- - Types, Types/Attributes, Types/Item: db/src/types.rs. `PeerData`, the helpers `as_string`,
--   `as_u16`, `as_u8`, `as_string_vec`, `as_option_bool`, and the conversion from DynamoDB items.
-- - PeerDb: the trait `PeerDB` of db/src/db.rs and `save_peer` of db/src/lib.rs.
-- - Aws: `AwsPeerDB` of db/src/db.rs: the item that `add_peer` stores, and in Methods the methods.
--   Dynamo is the client of DynamoDB; RoundTrip is about one item, Refines about the table, and
--   Queries about the two queries for single peers.
-- - Sql: the SQL statements of db/src/db.rs as data, and database clients as interfaces.
--   Stepping is the client of SQLite, Partial about answers that may miss something.
-- - Sqlite: `SqlPeerDB` of db/src/db.rs; Rows is about one row, Steps about rows that are missed,
--   Selecting about one query, Refines about the table, and Opening is its `new`.
-- - Postgres: `PostgreSQLPeerDb` of the same file, in the same way. The table is created outside the
--   repository; its columns are taken to be in the order in which the program reads them.
-- - PeerDb/Collection: what both databases keep, a collection of peers, each under its id;
--   PeerDb/Keeper: the same as an interface, which Sqlite/Keeper and Postgres/Keeper fill.
-- - Routes: bins/api-server/src/peerdb/routes.rs; Served is about the answers from SQLite.
-- - DbSync: bins/api-server/src/db_sync.rs; Runs is about what the runs leave, and
--   DbSync/Mirror about what the first one does to the collections.
-- - Version: `split_version` and `split_at_dash_or_plus` of
--   bins/reth-crawler/src/crawler/listener/update_listener.rs.
-- - Handshake and Listener: the tasks of the same file. `handshake_p2p_handle` is in two parts,
--   `begin_p2p` and `fail_p2p`, since it waits between reading and writing the failure count.
--   Listener/Streams is the spawning of the tasks, Listener/Crawled what they leave in a database, and
--   Listener/Latest what the API server then answers.
-- - Concurrent: the same tasks at the same time, from one wait to the next; Invariant and Sound are
--   about every order, Endings, Alone and Sequential about one task after another.
--   Concurrent/Listeners: the listeners of all nodes, which share one database, and Concurrent/Stored
--   what they leave in it.
-- - Crawler: `CrawlerBuilder` of bins/reth-crawler/src/crawler/factory.rs, and main.rs beside it;
--   Crawler/Service: service.rs, and `UpdateListener::new`. Additions of `u16` panic on overflow, as
--   in the debug builds of the README.
-- - Tasks: how tasks stand, and what the programs use to wait for several at once.
-- - P2p: bins/reth-crawler/src/p2p.rs; P2p/Handshakes joins it with the task of Listener.
-- - ApiServer: bins/api-server/src/main.rs, with the synchronisation of DbSync; ApiServer/Router: the
--   routes of `rest_router` and `start_api_server`. ApiServer/Answers joins the listener's tasks, the
--   synchronisation and a handler of Routes, and ApiServer/Requests adds the routes.
-- - System: both programs at once. The loop of `db_sync` copies one peer at a time while the listeners
--   and the requests go on; Sound and Served are about every moment, Copied and Fresh about those
--   after the first loop, and Uninterrupted about a run in one go. ApiServer/Listing is about what an
--   answer lists.
-- - StateListener: bins/reth-crawler/src/crawler/listener/state_listener.rs, with the service.
-- - BlockHashNum: bins/reth-crawler/src/crawler/block_hash_num.rs. `poll` is given how many
--   messages the channels deliver, because the runtime may hold messages back.
-- - Text: what the program uses of Rust's `str` and of decimal numbers; Prelude: shared helpers;
--   Tests: the theorems at concrete inputs.
--
-- Texts are lists of code points, and column and attribute names native strings. Numbers are
-- natural numbers; those of a peer fit `u16` and `u8` where `InRange` says so. `to_string` has the
-- number itself plus one as fuel, and each digit divides the number by ten, so it never runs out.
-- Code that is not in the repository is a parameter with its documented laws: attribute values
-- (Types/Attributes), the client of DynamoDB (Aws/Dynamo), the LRU cache (BlockHashNum/Lru), the
-- SQL clients (Sql, Sqlite, Postgres), reth (Handshake, Listener, Crawler, P2p), the macros of
-- tokio (Tasks), and axum (ApiServer/Router). The answers of the network, the clock, the
-- geolocation service and the block hash service are arguments of the tasks. Tests has an
-- implementation of each interface.
-- The table in DynamoDB is created outside the repository; `peer-id` is taken to be its primary key
-- alone. Its reads are eventually consistent, so what they give is stated of a table whose replicas
-- and indexes are settled. SQLite gives rows one by one, and a step that fails is an item of its own.
-- In Concurrent, what the eth handshakes answered is noted by the step relation, not by the tasks.
--
-- Not modelled: the network stack of reth, the CORS layer of the API server and requests other than
-- GET, logging, the parsing of command lines, the configuration of the client of DynamoDB, and
-- `append_to_file` of db/src/lib.rs, which nothing calls. Between two waits a task runs alone, and
-- the statement of a database call takes effect at once.
mod Prelude
pub mod Text
pub mod Types
pub mod Aws
pub mod Version
pub mod BlockHashNum
pub mod PeerDb
pub mod StateListener
pub mod Tasks
pub mod Crawler
pub mod ApiServer
pub mod System
pub mod Handshake
pub mod Listener
pub mod P2p
pub mod Concurrent
pub mod Sql
pub mod Sqlite
pub mod Postgres
pub mod DbSync
pub mod Routes
mod Tests
