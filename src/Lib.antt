-- ===== src/Lib.antt =====
-- CipherMQ: a message broker for encrypted messages. Clients connect over TLS, are known by the common
-- name of their certificate, and send requests as lines of text. This library models the server, the
-- crate in server/, the programs in clients/ and the maker of keys; their parts and the files that model them:
--
--   * server/src/state.rs, `ServerState`: queues, exchanges, bindings, consumers and the status of each
--     message. State holds the record and the small operations, State.Publish the stages of `publish`
--     and whom they reach,
--     State.Deliver `register_consumer`, `consume` and `acknowledge`, State.Cleanup the rounds of the
--     clean-up loops, State.Invariant what holds of every broker, State.Overlap the two halves of
--     `publish` around its wait for the database, beside other calls.
--   * server/src/acl.rs, `AclManager`: Acl. server/src/rate_limiter.rs, `RateLimiter`: RateLimiter.
--     `HeartbeatMonitor` of server/src/main.rs: Heartbeat. The counters of server/src/metrics.rs:
--     Metrics, with the texts that are made of them. server/src/config.rs, `Config::load`: Config.
--     The rest of server/src/main.rs: Startup.
--   * server/src/storage.rs: Storage has the interface that the broker uses, Storage.Worker the tables,
--     the buffers and the statements of the worker task, Storage.Keys the encrypted public keys,
--     Storage.Connect the connection with its attempts, Storage.Loop the commands of the worker and a
--     pool that is closed, and Storage.Service fills the interface.
--   * server/src/server.rs, `handle_client`: Server.Requests has a handler for each command,
--     Server.Dispatch the checks in front of them, Server.Lifecycle the loop of a connection from its
--     acceptance to its end, with the delivery of messages. Server.World has all tasks of the server side by
--     side, as steps that come in any order: handshakes, connections, the heartbeat monitor and the
--     clean-up loops.
--   * server/src/connection.rs, `extract_client_id`: Certificates. server/src/admin_server.rs: Admin.
--     server/src/auth.rs, `configure_mtls`, and the admin server's `build_acceptor`: Tls.Servers. The
--     connectors of the three clients: Tls.Clients, with whom they trust in Tls.Trust.
--   * clients/sender_1/src/main.rs: Clients.Sender has the messages and their encryption,
--     Clients.Sender.Keys the talk about keys and queues, Clients.Sender.Batches the batches,
--     Clients.Sender.Pipeline what happens while a batch is sent, as steps of the loop and of the task
--     that reads the answers, Clients.Sender.Retries what follows the last batch.
--   * clients/receiver_1/src/main.rs: Clients.Receiver has the decryption and the receive loop,
--     Clients.Receiver.Handshake what comes before it, Clients.Receiver.Workers and
--     Clients.Receiver.Writer the tasks, Clients.Receiver.Reconnect the loop of `main`.
--   * clients/admin/src/poll.rs: Clients.Console.
--   * Clients.Primitives has what the clients call of the cryptographic libraries, Clients.RoundTrip the
--     sender's encryption against the receiver's decryption, Clients.Wire the lines between the clients
--     and the server, Clients.Delivery the way of the messages from a channel of the server to the
--     receiver's writer.
--   * create_ca_key/Rust_Key_Maker_X25519/src/main.rs: Makers.Keys;
--     create_ca_key/Rust_CA_Maker_ECDSA_P-384_Multi_Client/src/main.rs: Makers.Certificates. Clients.KeyExchange and
--     Clients.KeyDistribution follow a key from there through the receiver, the server and its database to
--     the sender.
--
-- A request goes through the access control and the rate limiter to a handler, which calls methods of
-- the broker; the broker calls the database layer through its interface, and puts messages into the
-- channels of the connections, whose loops write them out. The sender encrypts a message for each
-- receiver and publishes it; the receiver decrypts what is delivered, acknowledges it and writes it to
-- a file.
--
-- A `HashMap` or `DashMap` is an association list, in which an insertion replaces; an order of
-- iteration is the order of that list. An `Instant` is a number of milliseconds, a text of the time
-- of day an argument. Each method of `ServerState` is one atomic step; only State.Overlap has the
-- wait of `publish` for the database between its check for duplicates and its insertions. The task
-- that hands the queued messages to a new consumer runs at once instead of after its delays. `usize`
-- and `AtomicU64` counters of the server wrap around at 2 ^ 64, but for the tables of the rate limiter,
-- which stay within limits that are `usize` themselves. An `f64` is a value of an abstract type. The loops
-- are structural recursions: over the queues, the messages of a batch, the three attempts to send a
-- message, and the list of what `select!` or a read finds. The batches of the sender have as fuel
-- the number of messages that are left, the attempts to connect to the database the five that the
-- code makes. Only texts are modelled for the stream: bytes that are not UTF-8 are not.
--
-- Parameters stand for what comes from outside: `serde_json`, `base64`, `toml`, `rustls`,
-- `rustls_pemfile`, `x509_parser`, `rcgen`, the ciphers, the file system, the receiver's buffered
-- writer, what an address or a stream gives, and whether a statement, a write or a wait for a permit
-- comes to nothing. Left out are the TLS handshake itself, the streams of server/src/connection.rs,
-- logging, the signal handlers, the web pages of clients/admin and the limit of 4096 of the receiver's
-- channels.
pub mod Common
pub mod Storage
pub mod State
pub mod Acl
pub mod RateLimiter
pub mod Heartbeat
pub mod Metrics
pub mod Server
pub mod Config
pub mod Certificates
pub mod Tls
pub mod Startup
pub mod Admin
pub mod Clients
pub mod Makers
pub mod Tests
