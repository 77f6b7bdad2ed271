-- ===== src/Lib.antt =====
-- The chat server: a hub that owns rooms and clients and delivers messages between them, and the
-- parts around it. Each client has a read pump, which turns the frames of its connection into
-- commands for the hub, and a write pump, which drains the client's bounded send channel into the
-- connection. The hub runs on one goroutine and takes commands one at a time; it sends to the
-- clients' channels without blocking, and hands each message to the persister, which saves it.
--
-- Which file models which part:
-- - Message: internal/message/message.go. The frames and messages.
-- - Clock: the times in the 64-bit columns of SQLite.
-- - Hub: internal/hub/hub.go. `Hub` is the actor's state, `process` one case of the `select` in
--   `Run`; `join`, `leave`, `broadcast`, `disconnect`, `deliver_message`, `broadcast_presence`,
--   `handle` and `snapshot` are the methods of these names. Loops over a map are recursive
--   functions over a list of its keys (`leave_each`, `deliver_each`, `disconnect_each`). Hub/Rooms:
--   internal/hub/room.go. Hub/Clients: the clients of internal/hub/client.go, with `enqueue`.
--   Hub/Pumps: the read pump, `handleJoin`, the write pump, and `History`. Hub/Pumps/Deadlines: the
--   write pump with `writeWithDeadline` and `pingWithDeadline`. Hub/System: the actor and the
--   goroutines beside it, as single steps in any order. Hub/Connections: any number of connections,
--   from `NewClient` to the deferred `Unregister`, on top of these steps: each read pump does what
--   its frames ask for, one action at a time. Its modules Settled and Continuing are about readers
--   that keep up, Due and Delivering about the messages that these get, Dropped and Manned about
--   slow ones that the hub drops, and Closing about the end of all connections. Hub/Invariant: what
--   holds of the hub between two turns. Hub/Quiet, Announce, Departure, Visits, Disconnect, Shed,
--   Delivery, Broadcast, Membership, Leaving, Safety, Interleaving: what the operations do, from
--   the inside out. Hub/Directory: the hub as no more than who is connected and who is in which
--   room; Hub/Beside, Hub/Handling, Hub/Refinement: that the hub refines it. Hub/Ordering: which
--   chat frames each client gets in a run, and which its write pump takes. Hub/Crash: calls that
--   panic. Hub/Snapshot, Hub/Reporting: `snapshot`, and what it reports. Hub/Calls: `Register`,
--   `Unregister`, `Submit` and `Snapshot`, as calls that wait in a `select`.
-- - Persist: internal/persist/persist.go, with its `Run` as a sequence of steps at the queue.
--   Persist/Durable: the persister's calls of the SQLite store, and the history after them.
-- - Bus: internal/bus/bus.go. The mutex makes `publish`, `subscribe` and `deregister` single steps;
--   the goroutine of a subscription deregisters under the lock and closes the channel after it.
-- - Config: internal/config/config.go.
-- - Auth: internal/auth/auth.go, over a store that is a parameter. Auth/Text: `strings.TrimSpace`.
--   Auth/Token: `newToken` and `hashToken`, with base64 and hex; Auth/Token/RoundTrip, Digests and
--   Drawn: that the texts keep what was drawn, and sessions with such tokens.
--   Auth/Contract: what the comments on the interface `Store` promise, and bcrypt's limit.
--   Auth/Database: the tables and statements under both implementations of `Store`, over an engine
--   that is a parameter. Auth/Sqlite: internal/auth/sqlite.go. Auth/Postgres:
--   internal/auth/postgres.go. Their modules Contract fill Auth/Contract.
-- - Store: internal/store. Store/Table: the table of messages and the loop over the rows.
--   Store/Sqlite, Store/Postgres: the methods of the two stores. Store/Log, Store/Backed,
--   Store/Roundtrip, Store/Failing: saves and the histories after them. Store/Startup: `NewSQLite`,
--   `NewPostgres`, `migrate` and `Close`, over a driver that is a parameter. Store/Startup/Names:
--   the order of the migrations.
-- - Chat: cmd/chat/main.go. `run` composes the flags, the validation and the opening of the store;
--   the group of goroutines is a parameter. Chat/Exit: what the goroutines return, and the exit
--   code of `main`; Chat/Status: when it is 0.
-- - Web: internal/web/auth.go and the routes of the API in internal/web/server.go. A handler is a
--   function from a request and a store to a store and a response; `serve` puts the middleware,
--   `resolve`, before them. Web/Routing: the patterns of `New`, and how a request finds its
--   handler; Web/Safe: which requests can write. Web/EndToEnd: a session from the mux down to the
--   SQLite store. Web/Routing/Mux: what net/http documents of the choice. Web/Sessions follows a
--   session over several requests. Web/Socket: `handleWS`, and internal/web/conn.go.
-- - Prelude: tests, sets, maps as association lists, Go's channels, outcomes that panic.
-- The modules called Tests evaluate the definitions and apply the theorems at concrete inputs.
--
-- How Go is rendered:
-- - A pointer to a client is a number, and the clients stand in a heap; the pointer to a room is
--   the room itself, written back to the map when it changes.
-- - A call that can panic returns an `Outcome`. A send on a closed channel panics, also in a
--   `select` with a default, and so does a second close.
-- - `range` over a map visits the keys in an order that the language leaves open: a `Turn` holds
--   one permutation for each loop, and all theorems are for every `Turn`.
-- - Time is a number of nanoseconds: an instant, without a location. `int64` counters are kept as
--   64-bit patterns, `% 2 ^ 64`.
-- - Nothing recurses on fuel: every recursion follows a list or a text.
--
-- The engines and drivers of the databases are not part of the program. What the stores rely on is
-- a record of laws, `IsSql` or `IsDriver`, which states what SQL and the drivers document, and
-- which an engine in memory fulfils in the modules called Tests. In the same way `IsGroup` states
-- what the package errgroup documents of `Wait`, and `IsMux` what net/http documents of `ServeMux`.
--
-- Not modelled: the sockets and the timeouts under the HTTP server, the inside of the pprof server,
-- the delivery of signals, and `Ping` and `Close` of a connection, which are calls of libraries,
-- seen here in how they end; SHA-256, bcrypt and the random source, which are parameters; the
-- cleaning of paths by the mux; `ServeMux`, `strconv.FormatInt` and the float in
-- `Duration.Seconds`, which are calls of libraries; the location of a time, which the Postgres
-- store leaves as the driver gives it; the text of log lines and of wrapped errors; the headers of
-- responses other than the cookie; the static files and their JavaScript; the creation times of
-- accounts and sessions, which no query reads; memory that runs out, be it for a buffer or for the
-- slice that `RecentByRoom` makes with the whole history limit as its capacity.
pub mod Prelude
pub mod Message
pub mod Clock
pub mod Store
pub mod Hub
pub mod Config
pub mod Bus
pub mod Persist
pub mod Auth
pub mod Web
pub mod Chat
