-- ===== src/Lib.antt =====
-- Skybridge relays database sessions from a gateway to an agent next to the database, and masks
-- the rows on their way to the client. This library models the parts of it that decide what bytes
-- travel, in Go's order of guards and early returns, and proves them correct.
--
-- The parts, and the files of the repository that each models:
--   Prelude      shared types and lemmas: Boolean tests, lists, results, byte orders (encoding/binary),
--                Go strings as bytes, reads of a fixed length (io.ReadFull), maps (Dict), and
--                conversations over a connection (Talk), with the rules for how one ends (Ends)
--   Tunnel       internal/tunnel: Frame (frame.go), Control (control.go), Stream and Session
--                (session.go). The gateway and the agent hold one session each, over one connection;
--                Session/Loops is the read loop and the methods of a stream, Session/Steps all the
--                steps of a session, Session/Invariant what holds after any of them, and
--                Session/Delivery what one side writes and the other side receives
--   Mask         internal/mask: the Masker contract and Noop (mask.go), Chain (chain.go), Overlay
--                (overlay.go) and Remote (remote.go). The wire engines call a masker for each row
--   Wire         internal/wire: Postgres (postgres/postgres.go: Rows, Backend for pipeBackend,
--                Startup for negotiateStartup; postgres/upstream_tls.go: UpstreamTls;
--                postgres/auth.go: Auth for the messages, Scram for
--                SCRAM-SHA-256, Login for authenticateUpstream and ProxyInject), Mongo
--                (mongo/bson.go: Bson; mongo/mongo.go: Message, Server) and Mysql (mysql/mysql.go:
--                Packet, LenEnc, Rows, Results, Handshake, Commands; mysql/auth.go: Auth for the packets, Auth/Upstream for
--                terminateClient, authenticateUpstream and completeUpstreamAuth, Auth/Login for
--                ProxyInject; Relay for serverToClient and startUpstreamTLS). Credential is what the
--                two logins share (wire.go)
--   Edge         internal/edge: Policy, the allowlist of commands and its tokenizer (policy.go), Dispatch,
--                the envelope of a tool call and the answer to it (envelope.go, dispatch.go), Work, the
--                events of one run, and Transport, the reconnection and the messages of a stream
--                (transport/transport.go), and Aws, the tools that a call runs (awsexec: Aws itself for
--                awsexec.go and register.go, Cli for cli.go, Metrics, Queries, Series and MetricsCall for
--                cloudwatch_metrics.go, Logs for cloudwatch.go, Ecs and Snapshot for ecs_snapshot.go)
--   Config       internal/config: how the environment is read (config.go), with the record of the agent
--                in Agent and those of the edge and the gateway in Roles
--   Agent        internal/agent: Masking, the maskers of a configuration (agent.go), Session, the
--                registration and the exchange of a token for a credential (agent.go, credsource.go),
--                UpstreamTls, the policy of TLS towards the databases (upstreamtls.go), Serving, the
--                connection of a stream to its target (agent.go, clienttls.go), and OverlaySync, the
--                rules that are fetched (overlay_source.go)
--   Gateway      internal/gateway: DbUser, the sniffer of the login name (dbuser.go), and Registry, the
--                agents and the targets that they serve (gateway.go), over the control messages
--                of the tunnel
--   Tests        the theorems at concrete inputs
--
-- How the code is modelled. A byte is a number below 256, a slice or a string a list of bytes. A
-- connection is the bytes that it will still deliver; a writer is the bytes handed to it. An error
-- is a value of a result type. A pointer that several parties hold (a stream of the tunnel) is an
-- index into a heap, and so is a connection that the gateway has registered. The steps of the
-- session come in any order; opening, closing and writing take the session's lock several times in
-- the source and are one step here, so that frames of others do not come between the chunks of a
-- write. The MySQL engine converts uint64 lengths to int, so there an int is its 64-bit pattern
-- and a panic is a result; elsewhere the sums of offsets and 32-bit lengths stay far below 2^63.
--
-- Loops run on fuel where the source's loop has no structure to recurse on: the read loops and the
-- loops of the logins on the length of the input, of which each round takes some bytes; the
-- elements of a BSON document on the body's length, and nested documents on the document's length,
-- since a nested document is shorter; the chunks of a write on the length of what is written. The
-- polling of a query of the logs runs on the number of waits that fit in its longest time, with
-- three more, which is proved to be enough on a clock that passes on; the pages of an answer on
-- any fuel, of which the number of the pages is enough.
--
-- Parameters stand for code outside the repository: encoding/json in control messages
-- (ControlCodec) and in tool calls (JsonCodec), the HTTP services of the remote masker (Service)
-- and of the exchange of credentials (ControlPlane), Go's Unicode tables for texts that are not
-- ASCII (Unicode), the hash functions and base64 of the logins (Crypto, Hashes), random bytes, the
-- resolver of credentials, crypto/tls's handshake and crypto/x509's pools, the environment and the
-- files (Host), the AWS SDK (Sdk) with the answers of its clients, the run of the aws program, and
-- the readings of the clock.
--
-- Not modelled: goroutines that copy bytes, timers, flushes of buffered writers, addresses, TLS
-- and HTTP clients, the listeners and the dialling of the agent and the gateway, gRPC and the
-- enrolment of certificates, what is logged, and generated code.
pub mod Prelude
pub mod Tunnel
pub mod Edge
pub mod Agent
pub mod Config
pub mod Gateway
pub mod Mask
pub mod Wire
pub mod Tests
