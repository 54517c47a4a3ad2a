-- ===== src/Lib.antt =====
-- Symbolon, a broker that mints short-lived git credentials. A client proves with a pre-shared key
-- which identity it is, in a Noise session over TCP, and sends a request of git's credential protocol;
-- the broker asks a provider for a token and answers with it. An administrator enrolls and revokes
-- clients. This library models the logic of the broker and of its client.
--
-- Parts and files (paths from the repository's root):
-- - Identity.antt: src/identity.rs, the names of clients. Identity/Rule.antt has the rule.
-- - Transport: src/transport.rs. Tlv.antt is the hello that carries the identity, Frame.antt the
--   length prefix, Errors.antt the errors, Noise.antt the library `snow` as a parameter, Session.antt
--   what both state machines share, Responder.antt and Initiator.antt the machines. Each method takes
--   the machine's state and returns the next one beside its result; `settle` is the rule that an early
--   return leaves the state `failed`. Delivery.antt joins the two machines by a wire.
-- - GitCredential.antt: src/git_credential.rs. The loop variables of `Request::parse` are the record
--   `Slots`, the loop is a recursion over the lines. Block, Fields, Written and Emit hold proofs.
-- - Psk.antt, PskStore.antt, BrokerKey.antt: src/psk.rs, src/psk_store.rs, src/broker_key.rs. The crate
--   `hex` is the parameter `Hex`; PskStore/RoundTrip.antt states its documented laws.
-- - AtomicFs.antt: src/atomic_fs.rs. `Faults` says which calls of the file system fail. `File` has the
--   temporary files that writes left, and whether content and name of the file are on the disk.
-- - SharedState.antt: `SharedState::enroll_client`, `revoke_client` and `render_clients_doc` of
--   src/daemon.rs, over the tables in memory and the two files. Disk, Crash, InSync and Rollback hold
--   the invariants. The mutation lock lets no two mutations interleave, so each is one function.
-- - Connection.antt: `handle_connection` and its logging of src/daemon.rs. One turn of its loop is the
--   function `turn`; what the peer, the clock, the random generator and the provider answer is the
--   record `World` of that turn, and the shared state may differ from turn to turn.
--   Connection/Arms.antt has the arms of the turn, Connection/Authorized.antt follows a whole run.
-- - RateLimit.antt, TtlCache.antt, Singleflight.antt: src/rate_limit.rs, src/ttl_cache.rs,
--   src/singleflight_cache.rs. Clocks are arguments. Singleflight/Tasks.antt has the interleavings of
--   `SingleflightCache::with` as a step relation, over
--   the lists of Singleflight/Waiting.antt.
-- - Github: src/providers/github.rs. Errors.antt has `GithubError`, RepoPath.antt the path of a request,
--   Responses.antt what each endpoint makes of a response, Calls.antt `run_call` and the requests,
--   Caches.antt the two caches, Mint.antt `mint` and the calls it makes. What the clock, the signing
--   backend and the provider answer is the record `MintWorld`; beside its result a call returns its
--   effects, the requests sent and the events logged. `Cached.Reach` interleaves the steps of tasks that
--   mint on the caches. Tokens, Cached, Minting, After, Again, Scope, Status and Excerpt hold proofs.
-- - JwtBackend.antt, Agent.antt, AgentProtocol.antt, TpmWire.antt: src/providers/jwt_backend.rs, the agent
--   with its loop (agent.rs) and the broker's side of it (agent_backend.rs), their messages
--   (agent_protocol.rs), and the responses of a TPM (tpm_backend/wire.rs). The key is a function.
-- - JwtRs256.antt, TpmBackend.antt: the tokens (src/providers/jwt_rs256.rs) and the backend of a TPM
--   (tpm_backend.rs, and the commands of wire.rs). TpmBackend/Same.antt compares it with the agent.
-- - Admin.antt: src/admin.rs from a parsed request to the response, and `read_line`. Admin/Cli.antt has
--   both ends of a connection, Admin/Talk.antt joins them.
-- - Startup.antt: the files that src/daemon.rs reads before it serves. Startup/Restart.antt joins it to
--   what SharedState leaves on disk.
-- - ConnectionTracker.antt: src/connection_tracker.rs, as a step relation of handlers and the drain.
-- - Config.antt, Note.antt: the choice of the backend in src/config.rs, and src/note.rs.
-- - Helper.antt: src/bin/git_credential_symbolon.rs, the client. The socket is a record `Stream`.
--   Helper/Straight.antt has its exchange without the state machine, Helper/Drive.antt joins it to the
--   loop, Helper/KeyFile.antt is about the key file.
-- - Utf8.antt and Strings.antt are what these parts use of the standard library. Prelude has the shared
--   notation and lemmas. Tests has runs at concrete inputs.
--
-- Strings are the bytes of their UTF-8 form. A hash map is an association list. Integers are natural
-- numbers: the casts to u8 and u16 of the transport and the saturating counter of the token bucket are
-- written out; other sums are far below the range of their types. There is fuel in two places: the
-- decimal form of a number has one more than the number, which is enough since every digit divides it
-- by ten; and `Helper.drive` has seven rounds, as a session of a client is a write, two reads, a write,
-- two reads and the end.
--
-- Not modelled: the accept loop, socket setup, sandboxing, signals and logging (input, output and
-- system calls); JSON, TOML, HTTP, RFC 3339, hex, Noise and RSA (libraries: parameters of the functions
-- that use them); the construction of the HTTP client and the headers that all requests share; the actor
-- thread of a signing backend; the parsing of arguments.
mod Prelude
pub mod Identity
pub mod Utf8
pub mod Strings
pub mod RateLimit
pub mod TtlCache
pub mod Singleflight
pub mod GitCredential
pub mod Psk
pub mod PskStore
pub mod BrokerKey
pub mod AtomicFs
pub mod SharedState
pub mod Transport
pub mod Connection
pub mod JwtBackend
pub mod JwtRs256
pub mod TpmBackend
pub mod TpmWire
pub mod AgentProtocol
pub mod Agent
pub mod Admin
pub mod Startup
pub mod Helper
pub mod Config
pub mod Note
pub mod ConnectionTracker
pub mod Github
pub mod Tests
