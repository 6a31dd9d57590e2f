-- ===== src/Proxy/Rewrite/Tests.antt =====
-- The rewriting of rewrite.rs at concrete inputs.
use g2way.Common.{
  ◌≡◌, refl, true, false, [], ◌∷◌, ◌++◌, Option, none, some, Text, codes, strip_prefix, text_eq,
  arith, HeaderMap, get_header,
}
use g2way.Proxy.Rewrite.{
  UpstreamTarget, trim_slashes, split_query, join_paths, tail_of, upstream_path_and_query,
  hop_by_hop, named, strip_hop_by_hop_headers, apply_forwarded_headers, prepare_upstream_headers,
}
use g2way.Proxy.Rewrite.Target.{upstream_path_and_query-strips}
use g2way.Proxy.Rewrite.Headers.{prepare_upstream_headers-get}

rewrite : Unit {0}
unfolding trim_slashes split_query join_paths tail_of upstream_path_and_query hop_by_hop named
    strip_hop_by_hop_headers apply_forwarded_headers prepare_upstream_headers strip_prefix text_eq
rewrite = tt

-- A rule is a path and what it becomes.
abbrev Rule : Type 0
Rule = Text × Text

abbrev apply : Rule → Text → Option Text
apply (path, to) req_path = elim (text_eq path req_path) [ true ↦ some to | false ↦ none ]

abbrev target : UpstreamTarget Rule
target = record {
  listen_prefix = codes "/api";
  strip_listen_path = true;
  preserve_host_header = false;
  rewrites = (codes "/api/old", codes "/new?v=2") ∷ [];
}

abbrev upstream : Text → Option Text → Text
upstream path query = upstream_path_and_query apply target (codes "/base") path query

paths :
    (upstream (codes "/api/x") none ≡ codes "/base/x")
    × (upstream (codes "/api") (some []) ≡ codes "/base")
    × (upstream (codes "/api/old") (some (codes "a=1")) ≡ codes "/base/new?v=2&a=1")
unfolding rewrite
paths = (refl, refl, refl)

upstream_path_and_query-strips_example :
    (upstream (codes "/api" ++ codes "/x") none ≡ (codes "/base" ++ codes "/x") ++ [])
    × (upstream (codes "/api" ++ []) none ≡ codes "/base" ++ [])
unfolding text_eq
upstream_path_and_query-strips_example =
    upstream_path_and_query-strips apply target (codes "/base") 120 [] none refl refl refl
      (omega arith)

-- A client that names one of its headers in `Connection`, behind a proxy of its own.
abbrev headers : HeaderMap
headers =
    (codes "connection", codes "close, x-a")
    ∷ (codes "x-a", codes "1")
    ∷ (codes "host", codes "gw")
    ∷ (codes "x-forwarded-for", codes "1.1.1.1")
    ∷ (codes "te", codes "trailers")
    ∷ []

sent :
    prepare_upstream_headers some some some target (codes "2.2.2.2") true headers
    ≡ (codes "x-forwarded-proto", codes "https")
      ∷ (codes "x-forwarded-host", codes "gw")
      ∷ (codes "x-forwarded-for", codes "1.1.1.1, 2.2.2.2")
      ∷ []
unfolding rewrite
sent = refl

prepare_upstream_headers-get_example :
    get_header
      (codes "x-forwarded-for")
      (prepare_upstream_headers some some some target (codes "2.2.2.2") true headers)
    ≡ some (codes "1.1.1.1, 2.2.2.2")
unfolding rewrite
prepare_upstream_headers-get_example =
    prepare_upstream_headers-get some some some target (codes "2.2.2.2") true headers
      (codes "x-forwarded-for")

-- Of an address chain on two lines the second line is lost.
two_lines :
    prepare_upstream_headers some some some target
      (codes "3.3.3.3")
      false
      ((codes "x-forwarded-for", codes "1.1.1.1") ∷ (codes "x-forwarded-for", codes "2.2.2.2") ∷ [])
    ≡ (codes "x-forwarded-proto", codes "http")
      ∷ (codes "x-forwarded-for", codes "1.1.1.1, 3.3.3.3")
      ∷ []
unfolding rewrite
two_lines = refl
