-- ===== src/Lib.antt =====
-- GateRust: a reverse tunnel over QUIC, an HTTP(S) reverse proxy and their control plane, in Rust.
-- This library models the parts of the server that decide: who owns a tunnel, what bytes are on
-- the wire, how traffic is shaped, which certificate and which route a host takes, which
-- configurations are accepted, and how the control plane stores them.
--
-- Parts, and the files that model them:
-- - crates/gaterust-tunnel/src/runtime.rs (`TunnelRuntime`): Tunnel/Runtime.antt has the state and
--   the helpers, Tunnel/Runtime/Operations.antt the operations, each one critical section of the
--   source's lock as a function from state to state. The modules below Tunnel/Runtime prove the
--   invariant (Consistent, Preserved, SessionChanges, Credentials, Offline, Reach) and the answers
--   (Ownership, Answers). Connections and key digests are type parameters; a shutdown token is its
--   number, and the tokens cancelled and the connections closed are lists of the state.
--   Tunnel/ConfigStatus.antt has the status of the configuration and `wait_for_config`, on the states
--   that a watch channel shows, with their instants and the deadline; Reports and
--   Waiting are about what it answers. `snapshot` is not modelled.
-- - crates/gaterust-tunnel/src/protocol.rs: Tunnel/Protocol.antt has the control frames, the
--   datagrams of a relay and the test of service declarations. The JSON codec is a parameter.
-- - crates/gaterust-tunnel/src/server/socks5.rs: Tunnel/Socks5.antt has the handshake as a function
--   from what the client sends to what is written and the result; Handshake is about its answers.
-- - crates/gaterust-tunnel/src/server/mod.rs (`ListenerManager`): Tunnel/Listeners.antt, with `apply`, its
--   rollback and the listeners' limiters; a listener's task is what it was started with, and whether
--   it starts is an argument. Below it, Same, Served and Attempts are about one attempt, Wanted about the
--   configurations by name, Applied about an attempt that succeeds, and Rollback about `apply`.
-- - crates/gaterust-tunnel/src/rate_limit.rs: Tunnel/RateLimit.antt, on instants in nanoseconds.
-- - crates/gaterust-tunnel/src/config.rs: Tunnel/Config.antt has the types and the limits,
--   Tunnel/Validation.antt `ServerConfig::validate`, with the IP parser as a parameter; below it, Sets,
--   Tunnels and Groups are about its parts and Accepted about the whole. Tunnel/Reading.antt has
--   `ServerConfig::read` of a text.
-- - crates/gaterust-proxy/src/config.rs: Proxy/Config.antt has the types, Proxy/Fields.antt the tests of
--   single fields and Proxy/Validation.antt `ProxyConfig::validate`, which normalises the host names;
--   below it, Names, Domains, Certificates and Routes are about its loops and Accepted about the whole.
--   Proxy/Migration.antt has the format before and `ProxyConfig::read` of a text; Proxy/Migrated.antt and
--   Outcome below it are about the migration, and Proxy/Reading.antt about what is read. Proxy/Hosts.antt has the wildcard host names and the certificate of a host;
--   Proxy/Hosts/Wildcards.antt and Certificates.antt prove what they answer. The TOML and URI parsers
--   are parameters; a secret is its text.
-- - crates/gaterust-proxy/src/router.rs: Proxy/Router.antt has the router; below it, Buckets is about
--   the maps that `Router::new` fills, Longest about the sorting, Paths about prefixes, and Find about
--   `find` on a router that `new` built. The URI parser is a parameter.
-- - crates/gaterust-control/src/store.rs (`ConfigStore`): Control/Files.antt has `write_validated`,
--   `load_optional_*` and the task of a mutation on the file and its temporary files, with what the
--   operating system answers as an argument; Control/Files/Atomic and Edits are about every way it can
--   go. Control/TunnelEdits.antt and ProxyEdits.antt have the change that each method makes
--   (Membership, References, Secrets, DnsSecrets and AcmeSecrets are about them, Named about the helpers), Control/Store.antt
--   the store and its operations. Below it, TunnelMutations and ProxyMutations have the outcomes of a
--   mutation, Refines what success means, Sound what every operation keeps, and Reach every history. A mutation is one step: the
--   writer's permit keeps the mutations of one file apart. A reload takes no permit in the source; it is
--   one step too, so one that reads the file in the middle of a mutation and publishes after it is not
--   modelled. A temporary file is known by the random number in its name, which is among the answers of
--   the operating system; the wait for the running service is an argument. TOML printing is a parameter.
-- - crates/gaterust-control/src/auth.rs (`AuthService`): Control/Auth.antt has the login throttle and the
--   session tokens, with Argon2 and the JWT codec as parameters. A login is its two critical sections,
--   the test of the address and the answer, and a service runs any interleaving of them.
--   Control/Auth/Throttle.antt is about the table, Answered about an answer, and Interleaved
--   about what an address may try.
-- - crates/gaterust-proxy/src/api_model.rs: Control/View.antt, the view without secrets;
--   Control/View/Secrets.antt is about what it tells of them.
-- - `std::collections::HashMap`: HashMap.antt, entries with distinct keys behind laws.
--
-- How they interact: the server reads frames of the control channel, gives validated declarations
-- to `register` and `update_services`, and routes a tunnel's traffic to the session that `find`
-- answers, through a rate limiter per tunnel. The store writes a changed configuration to its file;
-- the running services load it from there, and the server gives it to `apply_tunnels` and
-- `apply_credentials`.
--
-- Bytes: a `str` is the list of its UTF-8 bytes. Loops are structural, but for `strip_spaces` in
-- Common/Trim.antt, whose fuel is the length of the text; that much is proved to be enough.
-- Not modelled: sockets, TLS, QUIC, the handshake of a session, certificate issuance, the serving of
-- requests, the database and the user interfaces.
pub mod Common
pub mod HashMap
pub mod Proxy
pub mod Tunnel
pub mod Control
