-- ===== src/Lib.antt =====
-- Electrosphere: a daemon that runs an agent's turns in sandboxes and keeps each thread's files as
-- a history of commits.
--
-- Parts and files.
--   Domain/Turns      src/domain/turn-service.ts: a turn is started, leased, finished, forked from,
--                     and closed. `Start`, `Finish`, `Fork` and `Closing` are the methods of those
--                     names; the leases are in Domain/Turns.antt itself and their counts
--                     in `Leases`.
--   Domain/Sandbox    src/domain/sandbox-service.ts: the runtime of a turn. `Committing` is
--                     `commitTurnRuntime`, the snapshot and publication of a durable turn.
--   Domain/Sessions   src/domain/session-manager.ts: the shell sessions of a runtime. `Shaping` is
--                     `shapeOutput` and `response`, `Calls` the public methods.
--   Domain/Recovery   src/domain/recovery.ts: `recover`, run once before the daemon serves, and
--                     the garbage collection (`Gc`).
--   Domain/Errors, Domain/Types, Domain/World
--                     src/domain/errors.ts, src/domain/types.ts, and the interface of the backends
--                     in src/backends/types.ts.
--   Storage/Database  src/storage/schema.ts: the tables as lists of rows, with the keys, foreign
--                     keys and the index on active turns that SQLite enforces.
--   Storage/Repository
--                     src/storage/repository.ts, a module for each group of statements: `Turns`,
--                     `Instances`, `Artifacts`, `Publish` (`publishTurnCommit`) and `History`
--                     (`commitBelongsToHistory`). What only `gc` uses is in Domain/Recovery/Gc.
--   Agent             src/agent-protocol.ts (`Frames`) and src/backends/agent-transport.ts (`Writer`
--                     for `SocketFrameWriter`, `Channel` for `AgentFrameChannel`).
--   Storage/Archive   src/storage/cfs.ts: the headers of a CFS archive and its extraction. `Extract`
--                     is `extractCfs` with each call of the file system; a resolved path is its
--                     components (Base/Paths).
--   Storage/Export    src/storage/cfs.ts: `Tree` is `collectEntries`, `Writing` is `exportCfs` and
--                     `Ingest` is `ingestCfs`.
--   Mcp               src/mcp/server.ts. `Paths` checks and normalizes paths, `Lines` numbers lines,
--                     `Streaming` is `streamArtifactLines`, `Tools` and `Read` the handlers, `Server`
--                     the handler of `shell` and the dispatch; `Files` has the calls of the backends
--                     and the interface of the artifact store.
--   Storage/Artifacts src/storage/artifacts.ts: `LocalArtifactStore` over a store of files.
--   Agent/Files       src/backends/agent-files.ts: `Responses` checks the answers of the agent,
--                     `Requests` has the operations, and `Transfer` is `write`.
--   Daemon            src/daemon/http.ts: `Auth` is `requireAuth`, `Envelope` is `inspectMcpRequest`,
--                     `Routes` the harness and `Mcp` the route of that name, which acquires and
--                     releases the leases of Domain/Turns.
--   Base              the state and error monad `Exec` with its rules (`Triple`), and the laws of
--                     lists, tables, texts, paths and integers in bytes. Tests holds the theorems
--                     at concrete inputs.
-- The turn service calls the sandbox service, both write through the repository, and the sandbox
-- service awaits the backends. The MCP server finds the runtime of its turn through the sandbox
-- service and calls that runtime's backend.
--
-- Correspondence. A method is a function of the same name in snake case. A method that changes state
-- is an `Exec S A`, a function from a state to a result or a thrown error, and a state: what was
-- written before a throw stays written, and only a transaction is rolled back. An awaited call of
-- code outside a component is an `Await`: its outcome, and what the other tasks of the event loop
-- did to the state meanwhile. Code between two awaits runs without interruption, as in the source.
-- A JSON column holds the value that its text encodes, a nullable id is an `Option` (ids are never
-- empty), and the pair of a thread and a turn stands for the text that `turnKey` joins.
--
-- Parameters. Fresh identifiers, the clock, SHA-256, JSON texts, the file system, the backends,
-- `Buffer.byteLength` and the constructor of `Request` are arguments. One call of a method reads the
-- clock once.
--
-- Bounds. The history walk takes as fuel the number of commits and two; the channel takes the number
-- of bytes in its buffer and one, and a frame takes four bytes at least. Both are proved enough.
-- The marking of the garbage collection takes the number of roots and commits, proved enough too.
-- An extraction takes the number of bytes, each entry at least 25, proved enough as well. The pulls
-- of an exported file take its size and one. The search of `lineNumbers` has a bound that the
-- theorems are about, since the source has none.
-- The copy of a file into an archive takes the file's size, and the slices of a chunk its length;
-- the stream of an artifact takes the number of bytes left. Each round takes a byte at least.
--
-- Not modelled. Tar archives, the health route, the schemas of requests, the configuration, the two
-- backends, and the guest agent, which is another program. Of the turn service, the memoised promise
-- of `close`; of the database, columns and tables that nothing reads; of the MCP server, the schemas
-- of arguments. A path is resolved as a text: where the file system ends up behind a symbolic link
-- is not modelled, and a write of a file takes the whole chunk or throws. Texts that a message
-- quotes are left out of it.
pub mod Base
pub mod Domain
pub mod Storage
pub mod Agent
pub mod Mcp
pub mod Daemon
pub mod Tests
