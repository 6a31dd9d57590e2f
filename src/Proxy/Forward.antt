-- ===== src/Proxy/Forward.antt =====
-- crates/g2-proxy/src/forward.rs: one request on its way upstream, with its retries and its breaker.
--
-- The HTTP client, the building of URIs and tokio's timeout are parameters. What other requests
-- share with this one - the target set, the cursor and the breaker - is passed along with the state
-- of the client, which may change all of it. Bodies are told apart by whether they are empty.
pub mod Attempts
pub mod Answer
pub mod Outcome
pub mod Tests
use g2way.Common.{
  ℕ, zero, suc, ◌+◌, Bool, true, false, not, ◌&&◌, ◌||◌, List, [], ◌∷◌, ◌++◌, Option, none, some,
  Text, codes, ltb, leb, ◌==◌, if◌then◌else◌, any, text_eq, Result, ok, err, saturating_add32,
  HeaderMap, get_header, insert_header, split, trim, eq_ignore_ascii_case, and_then,
}
use g2way.Proxy.Breaker.{CircuitBreaker, try_acquire_at, record_success, record_failure_at}
use g2way.Proxy.Rotation.{TargetSet, next_addr}
use g2way.Proxy.Rewrite.{
  UpstreamTarget, upstream_path_and_query, prepare_upstream_headers, strip_hop_by_hop_headers,
}

pub record Outgoing : Type 0 where
  pub method : Text
  pub uri : Text
  pub http2 : Bool
  pub headers : HeaderMap
  pub has_body : Bool

pub record UpstreamResponse : Type 0 where
  pub status : ℕ
  pub headers : HeaderMap

-- An error of the client's, which carries the size limit's marker or not.
pub data ClientError : Type 0 where
  too_large transport : ClientError

-- `panics` is no error of the source: it stands for an index out of range in the rotation, and for
-- the `unreachable!` behind the loop.
pub data AttemptError : Type 0 where
  bad_uri panics : AttemptError
  client : ClientError → AttemptError

pub record Shared (Addr W : Type 0) : Type 0 where
  pub targets : TargetSet Addr
  pub cursor : ℕ
  pub breaker : Option CircuitBreaker
  pub world : W

-- The parts of a request that every attempt sends.
pub record Parts : Type 0 where
  pub method : Text
  pub path : Text
  pub query : Option Text
  pub http2 : Bool
  pub headers : HeaderMap

-- `Uri::builder()` and the path of an address, and the client.
pub record Wire (Addr W : Type 0) : Type 0 where
  pub base_path : Addr → Text
  pub build_uri : Addr → Text → Option Text
  pub send : Outgoing → Shared Addr W → Result UpstreamResponse ClientError × Shared Addr W

unfoldable pub is_idempotent : Text → Bool
is_idempotent method =
    any (λ m. text_eq m method)
      (codes "GET"
        ∷ codes "HEAD"
        ∷ codes "PUT"
        ∷ codes "DELETE"
        ∷ codes "OPTIONS"
        ∷ codes "TRACE"
        ∷ [])

abbrev pub Outcome : Type 0
Outcome = Result UpstreamResponse AttemptError

module _ {Addr W Rule : Type 0} (wire : Wire Addr W) (apply : Rule → Text → Option Text)
    (target : UpstreamTarget Rule) where
  -- The request of an attempt with `left` attempts behind it: the last has the body.
  abbrev pub outgoing : Parts → Bool → ℕ → Text → Outgoing
  outgoing parts body left uri = record {
    method = parts.method;
    uri = uri;
    http2 = parts.http2;
    headers = parts.headers;
    has_body = body && left == 0;
  }

  abbrev pub upstream_uri : Parts → Addr → Option Text
  upstream_uri parts addr =
      wire.build_uri addr
        (upstream_path_and_query apply target (wire.base_path addr) parts.path parts.query)

  -- What follows an answer: another attempt only behind a transport failure.
  abbrev pub answered :
      (Shared Addr W → Outcome × Shared Addr W)
      → ℕ
      → Result UpstreamResponse ClientError × Shared Addr W
      → Outcome × Shared Addr W
  answered again left (ok resp, s) = (ok resp, s)
  answered again left (err too_large, s) = (err (client too_large), s)
  answered again zero (err transport, s) = (err (client transport), s)
  answered again (suc left) (err transport, s) = again s

  -- One attempt: on a URI that was built, and on an address that was picked.
  abbrev pub sent :
      (Shared Addr W → Outcome × Shared Addr W)
      → Parts
      → Bool
      → ℕ
      → Shared Addr W
      → Option Text
      → Outcome × Shared Addr W
  sent again parts body left s none = (err bad_uri, s)
  sent again parts body left s (some uri) =
      answered again left (wire.send (outgoing parts body left uri) s)

  abbrev pub attempt :
      (Shared Addr W → Outcome × Shared Addr W)
      → Parts
      → Bool
      → ℕ
      → Shared Addr W
      → Option (Addr × ℕ)
      → Outcome × Shared Addr W
  attempt again parts body left s none = (err panics, s)
  attempt again parts body left s (some (addr, cursor)) =
      sent again parts body left (record s { cursor = cursor }) (upstream_uri parts addr)

  -- The loop, on the number of attempts that are left.
  unfoldable pub run_attempts : ℕ → Parts → Bool → Shared Addr W → Outcome × Shared Addr W
  run_attempts zero parts body s = (err panics, s)
  run_attempts (suc left) parts body s =
      attempt (run_attempts left parts body) parts body left s (next_addr s.targets s.cursor)

-- The target's own settings, beside those that rewriting reads.
pub record ForwardTarget (Rule : Type 0) : Type 0 where
  pub rewriting : UpstreamTarget Rule
  pub method_override : Option Text
  pub upgrades_enabled : Bool
  pub http2 : Bool
  pub retries : ℕ

-- A request, with the extensions that the gateway has put on it. A policed tunnel is told by the
-- subprotocols that it accepts.
pub record Incoming : Type 0 where
  pub method : Text
  pub path : Text
  pub query : Option Text
  pub headers : HeaderMap
  pub body_is_empty : Bool
  pub client_ip : Option Text
  pub tls : Bool
  pub on_upgrade : Bool
  pub tunnel : Option (Option Text → Bool)

-- What goes back: an error of the gateway's, the upstream's response, or its 101 with the two
-- connections handed to a task that splices them.
pub data Reply : Type 0 where
  error_response : ℕ → Text → Reply
  relayed : ℕ → HeaderMap → Reply
  upgraded : HeaderMap → Reply

abbrev pub Tunnel : Type 0
Tunnel = Option (Option Text → Bool)

unfoldable pub attempts_allowed : ℕ → Text → Bool → ℕ
attempts_allowed retries method body_is_empty =
    if ltb 0 retries && is_idempotent method && body_is_empty then saturating_add32 retries 1 else 1

abbrev pub or_keep : Option Text → Text → Text
or_keep none method = method
or_keep (some other) method = other

-- The protocol and the tunnel of an upgrade that is attempted.
unfoldable pub upgrade_of : Bool → Incoming → Option (Text × Tunnel)
upgrade_of enabled req =
    if enabled && req.on_upgrade
    then (and_then (get_header (codes "upgrade") req.headers)
        λ protocol. some (protocol, req.tunnel))
    else none

module _ (to_str from_str parse_name : Text → Option Text) where
  abbrev pub names_trailers : Option Text → Bool
  names_trailers none = false
  names_trailers (some value) =
      any (λ token. eq_ignore_ascii_case (trim token) (codes "trailers")) (split 44 value)

  unfoldable pub keeps_te : Bool → HeaderMap → Bool
  keeps_te http2 headers =
      http2 && names_trailers (and_then (get_header (codes "te") headers) to_str)

  abbrev pub set_upgrade : Option (Text × Tunnel) → HeaderMap → HeaderMap
  set_upgrade none hs = hs
  set_upgrade (some (protocol, tunnel)) hs =
      insert_header (codes "upgrade") protocol
        (insert_header (codes "connection") (codes "upgrade") hs)

  -- The headers of every attempt.
  unfoldable pub upstream_headers : {Rule : Type 0} → ForwardTarget Rule → Incoming → HeaderMap
  upstream_headers target req =
      let client_ip = or_keep req.client_ip (codes "0.0.0.0") in
      let hs =
        prepare_upstream_headers to_str from_str parse_name target.rewriting client_ip req.tls
          req.headers in
      let hs' =
        (if keeps_te target.http2 req.headers
          then insert_header (codes "te") (codes "trailers") hs
          else hs) in
      set_upgrade (upgrade_of target.upgrades_enabled req) hs'

  abbrev pub accepts : Tunnel → Option Text → Bool
  accepts none negotiated = true
  accepts (some accepted) negotiated = accepted negotiated

  abbrev pub restore_upgrade : Option Text → HeaderMap → HeaderMap
  restore_upgrade none hs = hs
  restore_upgrade (some protocol) hs = insert_header (codes "upgrade") protocol hs

  unfoldable pub upgrade_response : UpstreamResponse → Tunnel → Reply
  upgrade_response resp tunnel =
      if accepts tunnel (get_header (codes "sec-websocket-protocol") resp.headers)
      then upgraded (
          restore_upgrade (get_header (codes "upgrade") resp.headers) (
            insert_header (codes "connection") (codes "upgrade")
              (strip_hop_by_hop_headers to_str parse_name resp.headers)))
      else error_response 502 (codes "upstream negotiated an unsupported WebSocket subprotocol")

  abbrev pub switched : Option (Text × Tunnel) → UpstreamResponse → Reply
  switched none resp = error_response 502 (codes "unexpected upgrade response from upstream")
  switched (some (protocol, tunnel)) resp = upgrade_response resp tunnel

  -- The reply to an outcome, none being a timeout. A panic has none: the client sees its connection
  -- go.
  unfoldable pub reply_to : Option (Text × Tunnel) → Option Outcome → Option Reply
  reply_to upgrade none = some (error_response 504 (codes "upstream request timed out"))
  reply_to upgrade (some (ok resp)) =
      if resp.status == 101
      then some (switched upgrade resp)
      else some (relayed resp.status (strip_hop_by_hop_headers to_str parse_name resp.headers))
  reply_to upgrade (some (err (client too_large))) =
      some (error_response 413 (codes "request body too large"))
  reply_to upgrade (some (err (client transport))) =
      some (error_response 502 (codes "upstream request failed"))
  reply_to upgrade (some (err bad_uri)) =
      some (error_response 502 (codes "invalid upstream request"))
  reply_to upgrade (some (err panics)) = none

abbrev pub is_server_error : ℕ → Bool
is_server_error status = leb 500 status && ltb status 600

-- What the breaker is told of an outcome: a failure, a success, or nothing.
unfoldable pub judge : Option Outcome → Option Bool
judge none = some false
judge (some (ok resp)) = some (not (is_server_error resp.status))
judge (some (err (client too_large))) = none
judge (some (err (client transport))) = some false
judge (some (err bad_uri)) = none
judge (some (err panics)) = none

unfoldable pub tell : Option Bool → ℕ → CircuitBreaker → CircuitBreaker
tell none now_ms b = b
tell (some true) now_ms b = record_success none b
tell (some false) now_ms b = record_failure_at none now_ms b

abbrev pub on_breaker :
    (CircuitBreaker → CircuitBreaker) → Option CircuitBreaker → Option CircuitBreaker
on_breaker f none = none
on_breaker f (some b) = some (f b)

-- `breaker.try_acquire()`, where there is a breaker.
abbrev pub acquire : ℕ → Option CircuitBreaker → Bool × Option CircuitBreaker
acquire now_ms none = (true, none)
acquire now_ms (some b) = let (admitted, b') = try_acquire_at [] now_ms b in (admitted, some b')

module _ {Addr W Rule : Type 0} (wire : Wire Addr W) (apply : Rule → Text → Option Text)
    (to_str from_str parse_name : Text → Option Text)
    (timeout : (Shared Addr W → Outcome × Shared Addr W)
      → Shared Addr W
      → Option Outcome × Shared Addr W)
    (target : ForwardTarget Rule) where
  -- The exchange of an admitted request, under the timeout.
  unfoldable pub exchange : Incoming → Shared Addr W → Option Outcome × Shared Addr W
  exchange req s =
      let parts : Parts = record {
        method = or_keep target.method_override req.method;
        path = req.path;
        query = req.query;
        http2 = target.http2;
        headers = upstream_headers to_str from_str parse_name target req;
      } in
      timeout
        (run_attempts wire apply target.rewriting
          (attempts_allowed target.retries parts.method req.body_is_empty) parts
          (not req.body_is_empty))
        s

  -- The reply, whether it has the upstream's latency on it, and the state that is left. The clock of
  -- the breaker is read before the exchange and after it.
  abbrev pub admitted_or_shed :
      ℕ → Incoming → Shared Addr W → Bool → Option (Reply × Bool) × Shared Addr W
  admitted_or_shed after_ms req s false =
      (some (error_response 503 (codes "upstream circuit open"), false), s)
  admitted_or_shed after_ms req s true =
      let (outcome, s') = exchange req s in
      (
        and_then
            (reply_to to_str from_str parse_name (upgrade_of target.upgrades_enabled req) outcome)
            λ reply. some (reply, true),
        record s' { breaker = on_breaker (tell (judge outcome) after_ms) s'.breaker },
      )

  unfoldable pub forward : ℕ → ℕ → Incoming → Shared Addr W → Option (Reply × Bool) × Shared Addr W
  forward now_ms after_ms req s =
      let (admitted, breaker) = acquire now_ms s.breaker in
      admitted_or_shed after_ms req (record s { breaker = breaker }) admitted
