-- ===== src/Lib.antt =====
-- CapyCoin: a core process that owns a database of accounts and transactions, and clients that send it
-- messages over datagram sockets. This library models the core, the code that it shares with
-- its clients, the HTTP gateway and the two programs that pay from the seed account. Paths are from the repository's root.
--
-- The parts, from the bottom up:
-- - Base: Boolean tests, lists, signed integers over the native numbers with the range of `i64`
--   (Base/Int), and UTF-8 as `std::str::from_utf8` decides it (Base/Utf8).
-- - Sqlite: the use of `rusqlite`. The engine is a parameter, `Engine`: which calls of a connection
--   fail, the order of the rows of a query without ORDER BY, and the order of stored timestamps. A
--   statement applies whole or fails and changes nothing; a transaction that is dropped before its
--   commit is rolled back. Sqlite/Monad is Rust's `Result` with a panic on a connection;
--   Sqlite/Laws, Keeps, Quiet and Fetch hold the rules of reasoning about it.
-- - Database: the rows of the two tables of `capycoin.db3`.
-- - Account: src/account.rs. Account/Table has the statements on the rows with the key and the CHECK;
--   `save_account`, `load_account`, `get_accounts` and `create_accounts_table` keep their names.
-- - Ledger: src/ledger.rs. `save_transaction` is composed of its guards, the body of its SQL
--   transaction (`transfer`) and the three writes (`post`); `get_transactions` and `get_transaction`
--   follow. Ledger/Transfer, Conserve, Consistent and Reconcile build the invariant of accounts and
--   ledger, Ledger/Entries the bounds of their numbers; Ledger/Verdict is a decision procedure
--   against which the code is compared.
-- - Auth: src/auth.rs. Auth/Hex has the parser and the printer of a token's text; `create_token` and
--   `validate_token` work on the table of `auth.db3`. `bcrypt` is a parameter, `Bcrypt`.
-- - Message: src/message.rs, the packets and their conversions; `serde_json` is a parameter, `Json`.
-- - Core: src/bin/core.rs. `start` is `main` up to its loop, `message_dispatch` and `handler` handle
--   one datagram, and Core/Reach is the life of the database over processes, datagrams, failures and
--   panics. Core/Server is `socket_server` and `main` around it: what the system gives to each call
--   (`Setup`) and to each round of the loop (`Round`: the flag that the signal handler clears, what
--   `recv_from` and `send_to` give) is a parameter, and the responses that were sent are in the state.
--   The loop runs on fuel, and more fuel than the round in which the flag is read as false is enough
--   (Core/Server/Stops, Core/Server/Runs). Core/Bank is an abstract view of the database, a bag of
--   accounts and a bag of entries, with what each message does to it.
--   Core/Extends says what is kept of a database for good, and Core/Numbers bounds what is stored and
--   sent.
-- - Client: src/client_util.rs, `send_and_recv_msg` with the socket files it makes and removes; what the
--   system does with its calls is a parameter, `Wire`.
-- - Gateway: src/bin/client_gateway.rs. Gateway/Token is `bearer_token`, Gateway/Handlers has the
--   handlers and the router; a response that is returned early is the error of a run on the token
--   database and the messages sent so far. Gateway/Asked, Tells and Reports put the gateway, the
--   exchange and the core together. Gateway/Life is `main`: `make_table`, and the requests that are
--   served then, with a log of them, over all processes. `rouille` gives the `Request`; the other
--   libraries are `Libraries`.
-- - Payout: src/bin/stipend.rs and src/bin/seed_tx.rs, over the client's exchange.
-- - Suite: the unit tests of src/account.rs, src/ledger.rs and src/auth.rs, under their names, as runs
--   of the modelled operations; what they draw and the times of their calls are parameters.
-- - Tests: concrete runs.
--
-- A clock and the random generators are arguments of the operations that call them. Identifiers are
-- numbers, and instants are nanoseconds since the year -9999. `i64` arithmetic that overflows panics,
-- as it does in Cargo's development profile; the loops over rows are structural recursion;
-- only the loop of `socket_server` is on fuel.
--
-- Not modelled: the inside of the sockets and of the signal handler of src/bin/core.rs; the
-- parsing of the arguments in src/bin/stipend.rs and src/bin/seed_tx.rs; the views, which nothing
-- reads; the texts of Display. The database is changed by one process at a time, and requests
-- that the gateway serves at the same time are taken one after the other.
pub mod Base
pub mod Sqlite
pub mod Database
pub mod Account
pub mod Ledger
pub mod Auth
pub mod Message
pub mod Core
pub mod Client
pub mod Gateway
pub mod Payout
pub mod Tests
pub mod Suite
