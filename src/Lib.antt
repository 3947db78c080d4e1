-- ===== src/Lib.antt =====
-- 9flx serves a chat account as a 9P file tree. The parts of the program and their models:
--
-- - internal/fluxer: the records of the API (`Types`) and the session with the gateway. `Gateway`
--   is the state that the mutex of fluxer.Gateway guards, with SetPresence, SetCustomStatus and
--   the presence queue. `Gateway.Connection` is the read loop of connect, one function for each
--   operation code, whose effects are a list; `Gateway.Reconnect` is Run with its backoff.
--   `Client` is the request loop of client.go. Its children are the pages of communities (`Guilds`),
--   the upload of attachments (`Upload`), the download (`Download`), the addresses of avatars
--   (`Avatar`) and the requests of the calls (`Endpoints`), whose bodies are the values of `Json`.
--   `Client.Actions` is the client as the command files use it, and `Client.Endpoints.Routes` an
--   independent server that reads the requests back.
-- - internal/core: the store of the topology (`Store`; `Store.Bootstrap` for Bootstrap and
--   `Store.Gateway` for ApplyGateway) and the event hub (`Hub`). The gateway hands each dispatched
--   event to ApplyGateway, which changes the store and publishes messages to the hub; a live file
--   of the tree holds a subscription of the hub.
-- - internal/p9fs: the files of the tree. `File.Snapshot`, `File.Setting` and `File.Buffer` are
--   the state machines by fid of files.go and the buffer that writes fill (nodes.go's slice reads
--   it). `File.Live` is the live file, whose records `Render` writes (internal/render/render.go), and
--   `File.Attachment` the file of an attachment with its readers (attachments.go).
--   `File.Input` is the buffer of command and send files, `Command` and `File.Send` parse what
--   was written, and `File.Actions` makes the call of the API client. `Tree` is
--   the reconciliation of conversations, `Tree.Refresh` that of the three directories with the store's
--   snapshot, `Tree.Friend` the channel of a friend's conversation. `Names` escapes and assigns
--   names (tree.go, and safePathName of internal/render/render.go).
-- - internal/config: `Config` is Parse, behind the flag parser.
-- - `Prelude` holds the shared lists, tables and tests, `Text` the parts of Go's unicode/utf8 and
--   strings that the code calls, written from their documentation.
--
-- How code becomes definitions: a string or a byte slice is `Bytes`, a list of numbers below 256;
-- a map is an association list without an order of its own; a struct behind a mutex is a record and
-- a method is a function of it, since each method runs under the lock; a pointer to a subscription
-- is the number of its allocation. A uint64 is a natural number with the wrap-around written out
-- (`u64_mod`). An error is `err`, a run-time panic is `panic`, and in the hub `none`. Loops are
-- structural recursion where the code's loop follows a list. The loops that follow a server have a
-- bound of rounds: for the request loop, more than the nanoseconds that are left of its context; for
-- the communities, more than their number; for the read of a live file, two rounds are always enough.
-- The world behind HTTP is a state that the model passes on. HTTP, timers, decoding JSON, the clock,
-- the random source, the constants of the 9P library and the callbacks are parameters.
--
-- Not modelled: goroutine scheduling inside one method, the heartbeat time-out, the JSON of frames,
-- the headers of requests, the fixed entries of the file tree, the reconciliation of the attachment
-- directories, the rendering of histories, the status report, authentication and the program's main
-- function.
pub mod Prelude
pub mod Text
pub mod Command
pub mod File
pub mod Types
pub mod Hub
pub mod Json
pub mod Names
pub mod Store
pub mod Gateway
pub mod Tests
pub mod Render
pub mod Client
pub mod Tree
pub mod Config
