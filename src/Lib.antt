-- ===== src/Lib.antt =====
-- A model of the session broker, a service that keeps a browser's login alive: it holds the
-- upstream grant, hands the browser short-lived cookies, rotates them without invalidating those
-- already out, and logs sessions out when the user or the identity provider says so. Paths below
-- are from crates/session-broker/src of the repository.
--
-- The parts and their files:
--   Clock: `Timestamp` of clock.rs, an `i64` stored with a bias of 2^63, so that its order is
--     that of the natural numbers.
--   Session: session.rs. Types has the data, Entry one session (`SessionEntry`), and Map, Refresh,
--     Kill and Sweep the operations of `SessionMap`, each with the name of its method. The two
--     `DashMap`s are association lists; what is sent to the writer and to the observer is a list
--     in the state. One call is one step: the interleaving of shards is not modelled. `none`, or
--     `panicked`, stands for a panic of `expect`.
--   Ratelimit: ratelimit.rs, `Limiter.check_at`, with the `u64` arithmetic written out, and the
--     `Retry-After` of http/guards.rs.
--   Keepalive: keepalive.rs. Scheduler has the `Scheduler`, whose heap is a sorted list, and
--     Worker the `KeepaliveWorker` with its `tick`, which gets the outcomes of its tasks as a list.
--   Custody: custody.rs, `take_custody` and the renewal of a grant, over a store of decrypted rows.
--     What the calls of other parts return is the record `Outside`.
--   Guards: http/guards.rs, the same-origin check and the redirect check.
--   Store: store/repo.rs and store/writer.rs. Rows has the tables of custodies, sessions, generations,
--     login transactions and audit rows as association lists by primary key, Statements the SQL
--     statements, each with the name of its function, Writer the commands and `apply_batch`, and
--     Restart `rehydrate` with `rehydrate_sessions` of main.rs. Mirror says what it means that the
--     tables cover the session map (what a restart needs) and that they mirror it (no row of a
--     forgotten generation is left either), and the other modules are about these. The admin
--     lane's tables and statements are parameters, and so is which command of a batch SQLite fails
--     at; token columns are as they are before sealing.
--   Crypto: store/crypto.rs, `seal`, `open` (here `open_sealed`) and the rotation of the keyring, and
--     `reseal_custody_with` of store/repo.rs. The cipher is the parameter `Aead`, of which
--     `IsAuthentic` says what is documented.
--   Audit: audit.rs, `AuditSink`, beside the writer that takes its commands. `record` is a call
--     that runs alone, and also the atomic steps that several threads interleave.
--   Tests: runs on concrete data.
-- Base passes on the library's names and has association lists and lists for the others.
--
-- The session map sends its commands to the writer, which applies them to the tables, and a
-- restart reads the tables into a new session map. The scheduler's worker calls
-- `tombstone_by_custody` and `set_custody_status` of the session map when a grant dies, and the
-- session handlers call the guards, the limiter and then the map.
--
-- Parameters stand for what is not in these files: `hash` is SHA-256 of a token, `fresh` and
-- `token` are what the random source gives, and a `Jitter` holds what floating point and the
-- random source make of one draw. All loops are structural. The one number of steps is that of
-- `run_alone` in Audit, where five are shown to be enough.
--
-- Not modelled: the runner's sleep between ticks, how a batch is gathered from the channel, the
-- admin lane's tables, migrations, the keyfile and its text, the OAuth flow, the token lanes, the issuer,
-- providers, configuration and the admin API. Telemetry, routing and process set-up have no
-- state of their own that matters here, and the mock identity provider is a test double.
mod Base
pub mod Clock
pub mod Session
pub mod Ratelimit
pub mod Keepalive
pub mod Custody
pub mod Guards
pub mod Store
pub mod Crypto
pub mod Audit
pub mod Tests
