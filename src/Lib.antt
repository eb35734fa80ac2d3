-- ===== src/Lib.antt =====
-- Mercury relay: a Nostr relay in Go. Clients send events and subscriptions over WebSockets
-- (internal/relay); events go through a queue (internal/queue) to a cache (internal/cache) and to
-- the subscribers; a quality controller (internal/quality) checks events, an access controller
-- (internal/access) says who may read and write, and internal/auth authenticates users with NIP-42
-- and authorises HTTP requests. internal/streaming takes events from other relays, and internal/api
-- serves a REST interface over the cache and the queue, manages SSH keys with their owners and lets
-- an admin block authors.
--
-- Files:
--   Prelude, Prelude/*: shared names; maps as association lists (Maps), int (Int), the interface to
--     float64 (Float), decoded JSON and the other parts of the standard library (Json), and decimal
--     texts (Decimal).
--   Models/Event: internal/models/event.go. Models/Filter and Models/Codec: the filter of go-nostr,
--     and the interface to encoding/json on events.
--   Queue: internal/queue/interface.go. Queue/Rabbit: the names and keys of
--     internal/queue/rabbitmq.go; Queue/Rabbit/Kinds: the kinds read from configs/kinds;
--     Queue/Rabbit/Operations: NewRabbitMQ, PublishEvent, ConsumeEvents and the others over a client
--     of the broker.
--   Cache: internal/cache/interface.go. Cache/Redis: internal/cache/redis.go over a client of Redis.
--   Quality/RateLimit, Quality/Controller: internal/quality/controller.go. Quality/KindConfig and
--     its children Rules, Spam and Score: internal/quality/kind_config.go.
--   Access: internal/access/controller.go.
--   Auth/Nostr: internal/auth/nostr.go. Auth/Universal: internal/auth/universal.go.
--   Relay/Privacy: internal/relay/privacy.go. Relay/Matching, Relay/Server/Parse,
--     Relay/Server/Clients, Relay/Server: internal/relay/relay.go.
--   Config/Settings, Config/Defaults, Config/Overrides, Config: internal/config/config.go.
--   Streaming/Messages, Streaming/Connections, Streaming/Locks: internal/streaming/upstream.go, the
--     last of them its goroutines around the lock of the connections.
--   Rest/Requests, Rest/Kinds, Rest/Structure, Rest/Books, Rest/Epub, Rest/Whitelist:
--     internal/api/rest.go. Rest/History: internal/api/history.go. AdminApi: internal/api/admin.go.
--   Transport/Manager: internal/transport/manager.go. Storage/Xftp: internal/storage/xftp.go.
--   SshKeys/Manager: the keys of internal/transport/ssh.go. SshKeys/Requests:
--     internal/api/ssh_keys.go.
--   The other files hold the theorems on the file or folder that they stand in, and Tests the
--     examples.
--
-- State is passed explicitly: an operation takes the state behind Go's receiver and returns the new
-- one with its result, an error as `some` of a constructor for each message. A definition has the
-- name of its Go function in snake case; a helper stands for a loop or a branch of one. What is
-- locked by one mutex is one step, and what runs in another goroutine is a step of its own
-- (`send_matching_events`, `process_events`). Every reading of the clock is an argument, in
-- nanoseconds since 1970, so that the readings of one call may differ. On fuel are
-- the digits of a decimal text, where it is one more than the number, and the loop that shortens the
-- stack of a book's structure, where it is the length of the stack.
--
-- Parameters stand for what the source only calls: float64 (`Float`, with the laws of IEEE 754 that
-- are used in `IsIeee`), encoding/json, strings and regexp (`Stdlib`, `Codec`), the AMQP client
-- (`Amqp`), the Redis client (`Client`) and SHA-256, the signature check of go-nostr, the random
-- bytes, the answer of the relay that is asked for a follow list, the files of a directory, the
-- environment (`System`), the file system (`FileSystem`), the library for keys (`Keyring`), the HTTP
-- client (`HttpClient`) and the sorting of a slice. The three transports are a parameter of their
-- manager (`Transport`).
--
-- The locks of internal/streaming are a step relation, since a goroutine there waits for a lock that
-- it holds itself. Its map holds pointers, so the connections lie in a heap, where other goroutines
-- write their fields without the lock.
--
-- In Redis no time to live runs out between the calls; a call may fail at any time.
--
-- Not modelled: the routes and the server-sent events of the REST interface, the terminal interfaces,
-- the SSH, gRPC, Tor and I2P transports, the decoding of YAML, the test data generators and the
-- commands, which are input and output; the logging and the rendering of statistics and pages; the
-- wrap-around of time.Unix, and of the difference of two times, near the ends of int64.
pub mod Prelude
pub mod Models
pub mod Queue
pub mod Quality
pub mod Access
pub mod Auth
pub mod Cache
pub mod Config
pub mod Streaming
pub mod Rest
pub mod SshKeys
pub mod AdminApi
pub mod Storage
pub mod Transport
pub mod Relay
mod Tests
