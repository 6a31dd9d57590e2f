-- ===== src/Proxy/Forward/Tests.antt =====
-- The forwarder of forward.rs at concrete inputs. The world is the list of the calls of the client.
use g2way.Common.{
  ◌≡◌, refl, Bool, true, false, List, [], ◌∷◌, ◌++◌, Option, none, some, Text, codes, arith, Result,
  ok, err, if◌then◌else◌, text_eq, strip_prefix,
}
use g2way.Proxy.Breaker.{CircuitBreaker, new, pack, unpack, try_acquire_at}
use g2way.Proxy.Breaker.Spec.{admits, view, new-IsValid}
use g2way.Proxy.Rotation.{next_addr, scan}
use g2way.Proxy.Rewrite.{
  UpstreamTarget, trim_slashes, split_query, join_paths, tail_of, upstream_path_and_query,
}
use g2way.Proxy.Forward.{
  Outgoing, UpstreamResponse, ClientError, transport, Shared, Parts, Wire, Outcome, run_attempts,
  ForwardTarget, Incoming, is_idempotent, attempts_allowed, exchange, forward, error_response,
  judge, tell, reply_to, upgrade_of,
}
use g2way.Proxy.Forward.Attempts.{Exchange, IsRun, run_attempts-IsRun}
use g2way.Proxy.Forward.Outcome.{IsForwarded, forward-IsForwarded}

runs : Unit {0}
unfolding is_idempotent attempts_allowed run_attempts next_addr scan trim_slashes split_query
    join_paths tail_of upstream_path_and_query exchange forward judge tell reply_to upgrade_of
    text_eq strip_prefix new pack unpack try_acquire_at view
runs = tt

abbrev Calls : Type 0
Calls = List Exchange

-- A client of whose two addresses only `b` answers.
abbrev answer_of : Text → Result UpstreamResponse ClientError
answer_of uri =
    if text_eq uri (codes "b/x") then ok (record { status = 200; headers = [] }) else err transport

abbrev wire : Wire Text Calls
wire = record {
  base_path = λ addr. [];
  build_uri = λ addr path. some (addr ++ path);
  send = λ q s. (answer_of q.uri, record s { world = (q, answer_of q.uri) ∷ s.world });
}

abbrev Rule : Type 0
Rule = Text

abbrev apply : Rule → Text → Option Text
apply rule path = none

abbrev rewriting : UpstreamTarget Rule
rewriting = record {
  listen_prefix = [];
  strip_listen_path = false;
  preserve_host_header = false;
  rewrites = [];
}

abbrev parts : Parts
parts = record {
  method = codes "GET";
  path = codes "/x";
  query = none;
  http2 = false;
  headers = [];
}

abbrev breaker : CircuitBreaker
breaker = new 2 1000

abbrev shared : Shared Text Calls
shared = record {
  targets = record { addrs = codes "a" ∷ codes "b" ∷ []; health = none };
  cursor = 0;
  breaker = some breaker;
  world = [];
}

abbrev to_b : Text → Bool → Outgoing
to_b uri has_body = record {
  method = codes "GET";
  uri = uri;
  http2 = false;
  headers = [];
  has_body = has_body;
}

-- The second address answers what the first did not.
retries-succeed : run_attempts wire apply rewriting 3 parts false shared ≡ (
  ok (record { status = 200; headers = [] }),
  record shared {
    cursor = 2;
    world =
        (to_b (codes "b/x") false, ok (record { status = 200; headers = [] }))
        ∷ (to_b (codes "a/x") false, err transport)
        ∷ [];
  },
)
unfolding runs
retries-succeed = refl

attempts-gate :
    (attempts_allowed 2 (codes "GET") true ≡ 3)
    × (attempts_allowed 2 (codes "POST") true ≡ 1)
    × (attempts_allowed 2 (codes "PUT") false ≡ 1)
unfolding runs
attempts-gate = (refl, refl, refl)

run_attempts-IsRun_example :
    IsRun (λ (w : Calls). w) 3 false shared (run_attempts wire apply rewriting 3 parts false shared)
run_attempts-IsRun_example =
    run_attempts-IsRun wire apply rewriting (λ w. w) (λ q s. refl) 3 parts false shared

abbrev target : ForwardTarget Rule
target = record {
  rewriting = rewriting;
  method_override = none;
  upgrades_enabled = false;
  http2 = false;
  retries = 2;
}

abbrev incoming : Incoming
incoming = record {
  method = codes "GET";
  path = codes "/x";
  query = none;
  headers = [];
  body_is_empty = true;
  client_ip = none;
  tls = false;
  on_upgrade = false;
  tunnel = none;
}

abbrev whole : Text → Option Text
whole t = some t

-- A timeout that elapses before anything is sent.
abbrev elapsed :
    (Shared Text Calls → Outcome × Shared Text Calls)
    → Shared Text Calls
    → Option Outcome × Shared Text Calls
elapsed run s = (none, s)

times_out :
    (forward wire apply whole whole whole elapsed target 5 9 incoming shared).0
    ≡ some (error_response 504 (codes "upstream request timed out"), true)
unfolding runs
times_out = refl

forward-IsForwarded_example :
    IsForwarded wire apply whole whole whole elapsed target 5 9 incoming shared breaker
      (admits 2 1000 5 (view breaker))
      (forward wire apply whole whole whole elapsed target 5 9 incoming shared)
unfolding runs
forward-IsForwarded_example =
    forward-IsForwarded wire apply whole whole whole elapsed target 5 9 incoming shared breaker refl
      (new-IsValid 2 1000 (omega arith) (omega arith)) (omega arith) (omega arith) (λ s'. refl)
