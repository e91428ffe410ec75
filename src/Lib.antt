-- ===== src/Lib.antt =====
-- A model of indexer-gateway-auth, the authenticating reverse proxy in front of the indexer
-- management API and of the endpoints of graph-node.
--
-- A request passes one pipeline (src/server.rs): it is authenticated (src/auth), its body is read
-- once and classified as a read or a write (src/classify.rs), the caller's scopes are compared with
-- those that the request requires (src/authz.rs), the budget of the caller is charged
-- (src/ratelimit.rs), and the request is forwarded to the upstream of its path (src/proxy.rs). On
-- the way records go to the audit log (src/audit.rs) and counters grow (src/metrics.rs). All this is
-- set up from one configuration document (src/config.rs).
--
-- Which file models which part:
--   Principal    src/principal.rs     `Principal`, with `new`, `anonymous`, `satisfies`
--   Config       src/config.rs        the document, the defaults, `resolve_secrets`, `load`;
--                                     Config/Decode is its deserialization
--   Classify     src/classify.rs      `classify`; Classify/Fields is `collect_top_fields`, and
--                                     Classify/Body the deserialization of a request's body
--   Authz        src/authz.rs         `override_matches`, `authorize`
--   Auth         src/auth/mod.rs      `Authenticator::authenticate`; the backends Auth/Token, Auth/Mtls
--                                     and Auth/Jwt are the files of src/auth with those names
--   Proxy        src/proxy.rs         `route`, the header filters, `forward`
--   RateLimit    src/ratelimit.rs     `RateLimiters`
--   Audit        src/audit.rs         records, sinks, `hash_variables`; Audit/Line is `to_json_line`
--   Metrics      src/metrics.rs       the recording helpers; Metrics/Endpoint is `serve`
--   Server       src/server.rs        `handle`, by stages in Server/Handle; its pure helpers are in
--                                     Server/Request and the records that it builds in Server/Records;
--                                     Server/Router is `build_router`, Server/Tasks the accesses of
--                                     `handle` between which other requests run
--   Main         src/main.rs          `parse_config_path`, `build_authenticator`, and `main` as far as
--                                     the state of the server; Main/Gateway is the whole `main`
--   Tls          src/tls.rs           `load_server_config`, `extract_identity`, and what a connection
--                                     adds to its requests; Tls/Serve is the accept loop
--   Tests        the unit tests of these files, run on the model; Tests/Integration is
--                tests/integration.rs, and Tests/Handshakes tests/tls.rs
--   Json         the values of serde_json; Prelude the shared types, texts and sets; Examples the
--                statements at concrete inputs
--
-- State is passed explicitly. `World` is what requests change: the limiters, the audit records,
-- the metrics and the requests that went to an upstream; `handle` is one step on it, and the
-- states of a running gateway are those that such steps reach. Server/Tasks has `handle` again, as
-- the sequence of its accesses to what requests share, and Server/Tasks/Schedule runs many
-- requests at the same time, under any order of their accesses; an access is one step. `handle_all`
-- of Server/Tasks/Schedule/Sequence is what such requests are compared with: `handle` on one after
-- the other. Server/Tasks/Remaining says what a request has still to write, and Server/Tasks/Same
-- when two states differ in the order of what was written only. Texts are sequences of characters,
-- bytes are numbers, and what an audit sink holds is bytes; header maps are lists of entries with
-- names in lower case, hash sets and B-tree sets are lists. The budgets are `u32`: a document with a
-- larger one is refused, and they are only compared with 0.
--
-- The expansion of GraphQL fragments recurs on fuel, which is spent where a fragment is entered. Its
-- fuel is the number of fragments of the document: no fragment is entered twice.
--
-- Arguments of the model stand for code that is not in the repository: the parsers of JSON,
-- GraphQL and TOML, the environment and the file system, jsonwebtoken, the comparison of subtle,
-- governor, the HTTP client, axum, rustls, x509-parser, the reading of a body within a limit, the
-- digest and the clocks; so is how the write of an audit line ends. An upstream answers by the
-- request that it gets alone, and a request brings along the times that it reads from the clocks
-- (`Moment`), whatever runs in between. Where a theorem relies on what such code documents, it says
-- so in a hypothesis: that the comparison of subtle is equality, what governor promises of a limiter
-- (`IsGovernor`), that different numbers have different texts, that a path matches a route of axum
-- exactly if it is the same (`IsAxum`), that a JSON text is one line, and that a table gives a struct
-- its entries and a text names a unit variant of TOML (`IsToml`).
--
-- Not modelled: sockets, the loop of the plain listener, the process-wide recorder of metrics and its
-- text, signals, timing, the text that serde_json writes for a JSON value, and how the crates word
-- the errors of documents and bodies.
pub mod Prelude
pub mod Principal
pub mod Config
pub mod Classify
pub mod Authz
pub mod Json
pub mod Auth
pub mod Proxy
pub mod RateLimit
pub mod Audit
pub mod Metrics
pub mod Server
pub mod Main
pub mod Tls
pub mod Examples
pub mod Tests
