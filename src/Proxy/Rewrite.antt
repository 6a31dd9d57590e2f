-- ===== src/Proxy/Rewrite.antt =====
-- crates/g2-proxy/src/rewrite.rs: the path and the headers of the request that goes upstream.
--
-- The capture and expansion of a rewrite rule, and the parsing of header names and values, are
-- parameters. A header map is the list of its entries, names in lower case.
pub mod Target
pub mod Dropped
pub mod Headers
pub mod Tests
use g2way.Common.{
  ℕ, Bool, true, false, not, ◌&&◌, ◌||◌, List, [], ◌∷◌, ◌++◌, Option, none, some, Text, codes, ◌==◌,
  leb, if◌then◌else◌, any, is_empty, keep, strip_prefix, text_eq, HeaderMap, remove_header,
  insert_header, get_header, split, trim, filter_map, flat_map, find_map, and_then,
}

-- The parts of `UpstreamTarget` that rewriting reads.
pub record UpstreamTarget (Rule : Type 0) : Type 0 where
  pub listen_prefix : Text
  pub strip_listen_path : Bool
  pub preserve_host_header : Bool
  pub rewrites : List Rule

-- `trim_start_matches('/')`.
unfoldable pub trim_slashes : Text → Text
trim_slashes [] = []
trim_slashes (c ∷ t) = let rest = trim_slashes t in if c == 47 then rest else c ∷ t

-- `split_once('?')`.
unfoldable pub split_query : Text → Option (Text × Text)
split_query [] = none
split_query (c ∷ t) =
    let rest = split_query t in
    if c == 63
    then some ([], t)
    else elim rest [ none ↦ none | some (path, q) ↦ some (c ∷ path, q) ]

-- `(!q.is_empty()).then_some(q)`, and `filter(|q| !q.is_empty())`.
abbrev pub non_empty : Text → Option Text
non_empty [] = none
non_empty (c ∷ q) = some (c ∷ q)

abbrev pub non_empty_query : Option Text → Option Text
non_empty_query none = none
non_empty_query (some q) = non_empty q

unfoldable pub join_paths : Text → Text → Text
unfolding trim_slashes
join_paths base tail = elim (trim_slashes tail) [
  | [] ↦ if is_empty base then codes "/" else base
  | c ∷ rest ↦ base ++ (47 ∷ c ∷ rest)
]

-- The text behind the path: the rule's query, then the client's.
abbrev pub query_part : Option Text → Option Text → Text
query_part none none = []
query_part none (some q) = 63 ∷ q
query_part (some r) none = 63 ∷ r
query_part (some r) (some q) = 63 ∷ (r ++ (38 ∷ q))

-- `strip_prefix(…).unwrap_or(req_path)`.
abbrev pub strip_or_all : Text → Text → Text
strip_or_all prefix req_path = elim (strip_prefix prefix req_path) [
  | none ↦ req_path
  | some rest ↦ rest
]

module _ {Rule : Type 0} (apply : Rule → Text → Option Text) where
  -- The tail that is joined to the base path, and the query that a rewrite brings along.
  unfoldable pub tail_of : UpstreamTarget Rule → Text → Text × Option Text
  unfolding split_query
  tail_of target req_path = elim (find_map (λ r. apply r req_path) target.rewrites) [
    | some expanded ↦ elim (split_query expanded) [
      | none ↦ (expanded, none)
      | some (path, q) ↦ (path, non_empty q)
    ]
    | none ↦
        if target.strip_listen_path
        then (strip_or_all target.listen_prefix req_path, none)
        else (req_path, none)
  ]

  unfoldable pub upstream_path_and_query : UpstreamTarget Rule → Text → Text → Option Text → Text
  unfolding tail_of join_paths
  upstream_path_and_query target base_path req_path query =
      let (tail, rewrite_query) = tail_of target req_path in
      join_paths base_path tail ++ query_part rewrite_query (non_empty_query query)

abbrev pub remove_all : List Text → HeaderMap → HeaderMap
remove_all [] hs = hs
remove_all (name ∷ names) hs = remove_all names (remove_header name hs)

pub hop_by_hop : List Text
hop_by_hop =
    codes "connection"
    ∷ codes "keep-alive"
    ∷ codes "proxy-authenticate"
    ∷ codes "proxy-authorization"
    ∷ codes "te"
    ∷ codes "trailer"
    ∷ codes "transfer-encoding"
    ∷ codes "upgrade"
    ∷ []

module _ (to_str : Text → Option Text) (parse_name : Text → Option Text) where
  abbrev pub connection_values : HeaderMap → List Text
  connection_values hs =
      filter_map
        (λ (h : Text × Text). if text_eq (codes "connection") h.0 then to_str h.1 else none) hs

  -- The headers that the request's own `Connection` names.
  pub named : HeaderMap → List Text
  named hs =
      filter_map (λ piece. parse_name (trim piece)) (flat_map (split 44) (connection_values hs))

  pub strip_hop_by_hop_headers : HeaderMap → HeaderMap
  unfolding named hop_by_hop
  strip_hop_by_hop_headers hs = remove_all hop_by_hop (remove_all (named hs) hs)

abbrev pub x_forwarded_for : Text
x_forwarded_for = codes "x-forwarded-for"

abbrev pub x_forwarded_host : Text
x_forwarded_host = codes "x-forwarded-host"

abbrev pub x_forwarded_proto : Text
x_forwarded_proto = codes "x-forwarded-proto"

abbrev pub is_some_text : Option Text → Bool
is_some_text none = false
is_some_text (some t) = true

-- `client_ip` is the text of the address.
abbrev pub chain : Option Text → Text → Text
chain none client_ip = client_ip
chain (some existing) client_ip = existing ++ (codes ", " ++ client_ip)

-- `if let Some(v) = value { headers.insert(name, v) }`, and the same where the name is absent.
abbrev pub set_if : Text → Option Text → HeaderMap → HeaderMap
set_if name none hs = hs
set_if name (some v) hs = insert_header name v hs

abbrev pub set_absent : Text → Option Text → HeaderMap → HeaderMap
set_absent name value hs = if is_some_text (get_header name hs) then hs else set_if name value hs

module _ (to_str : Text → Option Text) (from_str : Text → Option Text) where
  pub apply_forwarded_headers : Text → Option Text → Bool → HeaderMap → HeaderMap
  apply_forwarded_headers client_ip original_host tls hs =
      let existing = and_then (get_header x_forwarded_for hs) to_str in
      let hs1 = set_if x_forwarded_for (from_str (chain existing client_ip)) hs in
      let hs2 = set_absent x_forwarded_host original_host hs1 in
      set_absent x_forwarded_proto (some (if tls then codes "https" else codes "http")) hs2

module _ (to_str from_str parse_name : Text → Option Text) where
  pub prepare_upstream_headers :
      {Rule : Type 0} → UpstreamTarget Rule → Text → Bool → HeaderMap → HeaderMap
  unfolding strip_hop_by_hop_headers apply_forwarded_headers
  prepare_upstream_headers target client_ip tls hs =
      let original_host = get_header (codes "host") hs in
      let stripped = strip_hop_by_hop_headers to_str parse_name hs in
      let hs' =
        (if target.preserve_host_header then stripped else remove_header (codes "host") stripped) in
      apply_forwarded_headers to_str from_str client_ip original_host tls hs'
