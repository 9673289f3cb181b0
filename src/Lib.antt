-- ===== src/Lib.antt =====
-- akira-mcp lets an assistant run tasks on a user's machines. The auth service keeps accounts and
-- hands out tokens; the server keeps a pool of connected machines, sends them tasks and waits for the
-- results; a client on each machine runs the tasks. This library models the logic of the Go code.
--
-- Which file is about which code:
--   Base            shared helpers: Boolean tests and case lemmas, decidable equality as an instance,
--                   lists, Go strings as lists of bytes, maps as association lists with their laws
--   Auth/Types      internal/auth/store/store.go and oauth.go: the records and errors of a store
--   Auth/Memory     internal/auth/store/memory: the in-memory store. `Store` has the eight maps of the
--                   source; each method is a function under the name of the method (CreateUser is
--                   create_user), from the store to the new store and the result. Users,
--                   Verification, Refresh and OAuth hold the methods of the file of that name;
--                   Indexes, Accounts and History the agreement of the four account maps and that any
--                   sequence of calls keeps it; Lookups, OneTime and Attempts what follows for callers
--   Auth/Http       internal/auth/httpapi: the handlers, over any store that has the methods of
--                   the interface (`StoreApi`), in a monad that threads the store and the mail sent and
--                   ends early with a reply. Credentials, Token, OAuth, Register and Account hold the
--                   handlers; Stored puts a store under them; Grants, Flow, Rotation,
--                   Signup, Verify and Keys hold theorems
--   Server/Pool     internal/akira-server/connection: pool/pool.go (Registry), pool/pending.go
--                   (Pending) and client/client.go (the queue of a connection). Events lists what can
--                   happen to a pool; Once, Deliveries, Loss, Reconnect, Races, Limit and
--                   Listing hold theorems
--   Auth/ConnectKey GenerateConnectKey of internal/auth/store/store.go, with its theorems
--   Auth/Postgres   internal/auth/store/postgres: the tables of migrations/ with their constraints, and
--                   users.go (Users), tokens.go (Tokens) and oauth.go (OAuth) as statements on them;
--                   Agreement and Completion hold theorems. Auth/Http/Stored puts it under the handlers too
--   Rpc             api/connection/v1/connection.proto and the gRPC status codes
--   Server/Connect  internal/akira-server/connection/server/server.go: Connect, with its stream loop in
--                   single steps, SubmitResult and Heartbeat; and storeLookup of
--                   cmd/akira-server/main.go. Outcomes and Stream hold theorems
--   Server/Mcp      internal/akira-server/mcp/tools.go: dispatch and the handlers of the tools (Tools),
--                   from the arguments to the values that a reply shows, and whom they reach (Isolation);
--                   and auth.go: Validate, with theorems in Tokens
--   Client/Connection  internal/akira-client/connection: outbox.go (Outbox, and submitLoop in Submit),
--                   run.go and session.go (Session); Wakeups, Order and Drain hold theorems
--   Client/Executor internal/akira-client/executor/executor.go: readTask (Read), editTask and writeTask
--                   (Edit), the matching of globs (Glob), expandBraces and what it calls (Braces),
--                   globTask and listTask (Walk), Execute and execTask (Execute). Loop, Window, Edits,
--                   Matches, Selection, Numerals, Expansion, Variants, Listings, Depth and Effects hold
--                   theorems
--   Link            the client against the server: which answers end Run (Retry), what becomes of a
--                   result (Results), and the old connect key after a change (Revoked)
--
-- Choices of the model. A Go string is the list of its bytes. A time is a number of nanoseconds, and a
-- duration is added to it without overflow. What a function draws at random (ids, keys, codes), the
-- clock, cryptography, URL parsing and the mail server are arguments or fields of `Env`, one reading for
-- a request; nothing is assumed of them but what a theorem names. strings.ToLower and strings.TrimSpace
-- are modelled on ASCII. A method that holds a lock from start to end is one function; SendTask, which
-- takes its lock twice, is three functions, so that other calls can come between them. A connection is
-- a handle, and the two channels of a pending entry are one ticket; what was sent to it is a log. Loops
-- over a bounded number of tries recurse on that number, and all other loops on the list that they go
-- through, but for expandBraces: it runs on fuel, one unit for each byte of the pattern and one more,
-- which is what globTask gives it and is always enough. filepath.WalkDir goes through a tree.
-- The client's disk maps a file to its content, and which file a path stands for is an argument. The
-- tables check the constraints that migrations/ declares, and keep times in whole microseconds, as
-- timestamptz does.
--
-- Not modelled: the transport of gRPC and HTTP, parsing and routing of requests, a database that fails, JWT
-- and SMTP, the web frontend, generated code and the commands, which are I/O or third-party libraries.

pub mod Auth
pub mod Base
pub mod Client
pub mod Link
pub mod Rpc
pub mod Server
