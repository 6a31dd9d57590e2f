-- ===== src/Lib.antt =====
-- A verification library of the API gateway g2way, whose crates stand under crates/.
--
-- A request that reaches the gateway is matched to a route (g2-proxy/src/router.rs), passes the
-- layers of that route (g2-middleware), which admit or reject it, and is rewritten and sent to an
-- upstream (g2-proxy), which a circuit breaker and health checks watch. The auth layer finds the
-- session of a request, which the layers below it read. The rate-limit layer asks
-- a store (g2-storage) for its decisions; sessions and policies (g2-core) say what a key may do.
--
-- Common            lists, byte texts, results, association lists and machine words
-- Core.Session      KeySession, its checks and its storage keys: g2-core/src/session.rs
-- Core.Policy       Policy and KeySession::apply_policy: g2-core/src/policy.rs, session.rs
-- Storage           the two limit checks of the Storage trait: g2-storage/src/lib.rs
-- Storage.Memory    MemoryStorage, one function per operation: g2-storage/src/memory.rs
-- Middleware.Spike        SpikeGuard, a word per bucket: g2-middleware/src/spike.rs
-- Middleware.Rules        the compiled path rules that two layers share: path_policy.rs
-- Middleware.RateLimit    enforce and limit_response, over any store: rate_limit.rs
-- Middleware.PathPolicy   PathPolicyLayer and its decision: path_policy.rs
-- Middleware.SizeLimit    RequestSizeLimitLayer and the counted body: size_limit.rs
-- Middleware.Reads        the store's state and the ? operator of the async handlers
-- Middleware.Auth         AuthLayer, its modes and its Signature header: auth.rs, hmac.rs
-- Middleware.Jwks         JwksCache, its refresh and its cooldown: jwks.rs
-- Middleware.Cors         CorsLayer and its preflight answers: cors.rs
-- Middleware.Transforms   HeaderTransformLayer and its check: transform_headers.rs, transform.rs
-- Middleware.Versions     VersionDispatch, the choice of a version: versioning.rs
-- Middleware.IpFilter     IpFilterLayer and its decision: ip_filter.rs
-- Proxy.Breaker     CircuitBreaker, its packed word and its races: g2-proxy/src/breaker.rs
-- Proxy.Router      Route::matches and RouteTable: g2-proxy/src/router.rs
-- Proxy.Rewrite     upstream_path_and_query and the headers: g2-proxy/src/rewrite.rs
-- Proxy.Rotation    TargetSet and next_addr: g2-proxy/src/forward.rs, health.rs
-- Proxy.Forward     run_attempts, forward and its breaker: g2-proxy/src/forward.rs
-- Proxy.Health      the streaks and flags of the checker: g2-proxy/src/health.rs
--
-- A function of the source is a definition of the same name. State that the source mutates is
-- passed along: an operation takes it and returns it beside its result. Clocks are arguments. A
-- loop over an atomic word takes the list of the words that other threads store between its load
-- and its compare-and-swap, one for each round that is disturbed, so it recurses on that list and
-- needs no fuel. The loop over the parameters of a Signature header has the length of the text as
-- fuel, which is enough since each round takes at least one byte. The rotation counts the rounds of its loop; the digits of a position have the
-- position as fuel, which is enough since each digit divides it by ten. Every other loop recurses
-- on a list of the program. Machine words wrap or saturate
-- where the source does, and the theorems name the bounds they need.
--
-- Parameters stand for code of other packages: hashes and signatures, base64 and JSON, regular expressions and their captures, the parsers
-- of methods, header names, addresses and networks, the guard's hash, and, in the routing table,
-- the build of a single route. Not modelled are the asynchronous runtime, the HTTP client and
-- server, Redis, GraphQL, plugins, telemetry and the admin API, and for now the response
-- cache, the body transforms, and the checks of an API definition and of its versioning.
pub mod Common
pub mod Core
pub mod Proxy
pub mod Middleware
pub mod Storage
