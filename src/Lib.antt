-- ===== src/Lib.antt =====
-- zhangyu: a tunnel service. Clients behind a firewall keep a command connection to a node; a client
-- asks a node to listen for another client's tunnel, and the node leads the connections that come in
-- to the target client. Nodes share what they know through an etcd server.
--
-- The parts, and the files that model them:
-- - Base: texts (`strings`, `fmt.Sprintf` of texts), maps as association lists, lists, tests.
-- - Utils/Cache models utils/cache.go, type `Cache`: `get`, `set_item` (`Set`), `set_expire`,
--   `set_value`, `has_key`, `delete`, and `fire`, which is what the goroutine of a timer does. Items are
--   pointers, an index into a store that keeps items after they have left the map.
-- - Utils/Bytes models the four conversions of integers of utils/io.go. Utils/Json models
--   `GetJsonString` and `GetJsonValue` of utils/json.go on documents, and Utils/Json/Arrays on slices.
-- - Utils/Closer models utils/closer.go, as steps of the goroutines of `SetCtx`. Utils/Strs, Utils/SyncMap
--   and Utils/Http model utils/strs.go, utils/map.go, and `GetRealRemoteAddr`, `IsJson` and `IsGzip` of
--   utils/http.go, and Utils/Http/Streams its readers and writers.
-- - Utils/Settings models `FileExists`, `SaveJsonSetting` and `ReadJsonSetting` of utils/json.go and
--   utils/io.go, on a disk that holds files by name, and Utils/Logs the writer of log files of utils/io.go and
--   `SetLogFile` of utils/log.go.
-- - Rpc/Models, Rpc/InvokePath and Rpc/Records model the messages, constants and records of
--   rpc/invoke.go, rpc/consts.go and rpc/models.go.
-- - Rpc/Invoker models `Invoker` of rpc/invoke.go, with its setters and attachments; the handlers read the
--   part of it that Node/Peers calls `Peer`, and System/Invokers relates the two.
-- - Rpc/Frame models `writeInvokeData` and `readInvokeStr` of rpc/invoke.go on streams of bytes.
-- - Rpc/Envelope models `WriteRequest`, `WriteResponse` and `ReadInvoke` of rpc/invoke.go on texts: a message
--   goes through a Go map, whose keys are sorted in its text (Utils/Json/Maps).
-- - Rpc/Calls models `Invoke`, `receiveResponse`, `getResponseChan` and `RemoveResponseChan` of
--   rpc/invoke.go, as steps of the goroutines of one invoker.
-- - Rpc/Route models `InvokeRoute` of rpc/invoke.go: handlers, the cache of invokers, and the loop
--   `DispatchInvoke`, over the rounds that it goes through.
-- - Etcd/Keys, Etcd/Store, Etcd/Register, Etcd/Listens, Etcd/Directory and Etcd/Watch model
--   app/node/etcd/keys.go and app/node/etcd/etcd.go. Etcd/Server is what they use of an etcd server, an interface with laws, and
--   Etcd/Runs the runs of the store: each step is an operation of a node as a whole, or an online record that ends.
-- - Node/Peers, Node/Login, Node/Transfer, Node/Transport, Node/HttpRoot and Node/ListenAdd model
--   the handlers of app/node/node.go. `getTransport` and `OnHttpRoot` are in two halves, before and
--   after the wait, and the first half of `getTransport` is in two parts, up to its write and from there on.
--   Node/Token models
--   app/jwt.go and `verifyToken`, Node/Handlers `init` and `ConnectionIn`, and
--   Node/Adapter the node as the adapter of its server.
-- - Node/Setup models `NewNode` of app/node/node.go, Node/Routes the routes of app/node/consts.go over HTTP
--   with and without `verifyToken` (Node/Routes/Forged: a token that the node did not sign), and Node/Response the answers of utils/response.go.
-- - Quic/Server models rpc/quic/srv/server.go: `upgradeWebTransport` is `upgrade_web_transport`, in the
--   parts `open_stream`, `accept` and `greet`, with what it does as a list of acts. Quic/Setup models
--   `NewServer` with its certificate files, and the methods around the route.
-- - Quic/Client models rpc/quic/cli/client.go: `Dial`, `ConnectTo`, `Invoke` and the heartbeat, and
--   Quic/Client/Keepalive the goroutines that keep the connection, as steps. Quic/Client/Handlers models
--   `NewClient` and the methods around its route.
-- - Client, with Client/Login, Client/Listens, Client/DialOut, Client/Handlers, Client/Setup and
--   Client/Init, models app/client/client.go.
-- - System: what clients and nodes do with each other's messages: Connect (both ends of a connection),
--   Join (a new client), Listening (the notice and the list of listens), Forward (a connection
--   from a listener to its target), Paths (the handlers that it reaches), Kick (a second login), Restart (a client starts again
--   from its settings file), Reconnect (a client with an identifier dials), FirstNode (a node on its defaults),
--   Visit (a visitor of a domain that was listened for)
--   and Invokers (what is set on an invoker).
-- - Samples: an implementation of each interface, and runs at concrete inputs.
-- A child module named for a property of its parent (Laws, Valid, Access, Timers, Runs, Invariant,
-- Blocked, Domains, Refines, Keeps, Registered, Clients, Grounds, Reads, Trips) proves theorems about its parent's definitions.
--
-- The handlers of Node call the store of Etcd, which calls the server and the JSON of Utils, and look
-- invokers up in the route of Rpc, which keeps them in the cache of Utils. The server of Quic calls the node
-- through the record `Adapter`, and the client of Quic hands its messages to Client.
--
-- Interfaces for code outside the repository: `Server` (etcd), `JsonText` (the text of a JSON
-- document), `IndentedText` (the same with ends of lines), `Gzip` (compress/gzip), `CaseTable` (lower case of a character), a parser of URLs, and `Jwt` (tokens that are signed
-- and parsed). Random numbers, new identifiers, the time, and whether a write on a connection succeeds are arguments.
--
-- Bounds and fuel: an `int` is its 64-bit pattern, and the version of an item wraps around at 2 ^ 64.
-- The two loops that draw until they have a lock are recursions on the list of their draws, which is
-- enough as soon as one of them has a free key. `DispatchInvoke` is over the list of its rounds, and a reader over the sizes of its reads. The length of a slice is bounded by a
-- parameter below 2 ^ 63, where `make` panics.
--
-- Not modelled: the start of the QUIC, HTTP and SOCKS servers and the sockets, which are calls of libraries;
-- the bytes that `Copy` of rpc/invoke.go copies; what `DispatchInvoke` does when the response of a two-way handler cannot be written; leases that run out between two calls of a node, and
-- `RenewLease`, `PutValueAndExpire` and `UdpListen`, which nothing calls; the pair of keys of a certificate; the two programs
-- under cmd, which start a node or a client and wait for a signal. Ports and the seconds of a heartbeat
-- in a settings file are taken not to be negative.
pub mod Base
pub mod Utils
pub mod Rpc
pub mod Etcd
pub mod Node
pub mod Quic
pub mod Client
pub mod System
pub mod Samples
