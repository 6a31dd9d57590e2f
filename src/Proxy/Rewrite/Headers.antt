-- ===== src/Proxy/Rewrite/Headers.antt =====
-- The headers of the request that rewrite.rs sends upstream.
use g2way.Common.{
  ◌≡◌, refl, ap, subst, ◌∙◌, Bool, true, not, ◌&&◌, ◌||◌, List, [], ◌∷◌, Option, none, some, Text,
  ◌++◌, codes, arith, if◌then◌else◌, text_eq, text_eq_iff, Bool-cases, Option-cases, inl, inr,
  HeaderMap, remove_header, get_header, get_header-remove, get_header-insert, and_then,
}
use g2way.Proxy.Rewrite.{
  UpstreamTarget, strip_hop_by_hop_headers, x_forwarded_for, x_forwarded_host, x_forwarded_proto,
  chain, set_if, set_absent, apply_forwarded_headers, prepare_upstream_headers,
}
use g2way.Proxy.Rewrite.Dropped.{is_dropped, strip_hop_by_hop_headers-get}

-- The three headers that the gateway writes.
abbrev forwarded : List Text
forwarded = x_forwarded_for ∷ x_forwarded_host ∷ x_forwarded_proto ∷ []

abbrev pub first_of : Option Text → Option Text → Option Text
first_of none other = other
first_of (some v) other = some v

get_header-set_if :
    (name other : Text) (v : Option Text) (hs : HeaderMap)
    → get_header other (set_if name v hs)
      ≡ (if text_eq name other then first_of v (get_header other hs) else get_header other hs)
get_header-set_if name other none hs = ground arith
get_header-set_if name other (some v) hs = get_header-insert name v other hs

get_header-set_absent :
    (name other : Text) (v : Option Text) (hs : HeaderMap)
    → get_header other (set_absent name v hs)
      ≡ (if text_eq name other then first_of (get_header other hs) v else get_header other hs)
get_header-set_absent name other v hs = elim (Option-cases (get_header name hs)) [
  | inl e ↦ rw e (get_header-set_if name other v hs ∙ ground (arith, text_eq_iff name other))
  | inr (found, e) ↦ rw e (ground (arith, text_eq_iff name other))
]

module _ (to_str from_str parse_name : Text → Option Text) {Rule : Type 0}
    (target : UpstreamTarget Rule) where
  -- What is left of a header of the client's: nothing if it is hop-by-hop, if a `Connection` of the
  -- client's names it, or if it is a `Host` that is not preserved.
  abbrev pub left_over : HeaderMap → Text → Option Text
  left_over hs name =
      if is_dropped to_str parse_name hs name
        || (text_eq (codes "host") name && not target.preserve_host_header)
      then none
      else get_header name hs

  abbrev pub readable : Option Text → Option Text
  readable none = none
  readable (some v) = to_str v

  -- The addresses of the proxies on the way, the client's last.
  abbrev pub through : Text → Option Text → Text
  through client_ip none = client_ip
  through client_ip (some proxies) = proxies ++ (codes ", " ++ client_ip)

  -- The specification of the headers that go upstream.
  abbrev pub expected : Text → Bool → HeaderMap → Text → Option Text
  expected client_ip tls hs name =
      let mine = left_over hs name in
      if text_eq x_forwarded_for name
      then first_of (from_str (through client_ip (readable mine))) mine
      else if text_eq x_forwarded_host name
      then first_of mine (get_header (codes "host") hs)
      else if text_eq x_forwarded_proto name
      then first_of mine (some (if tls then codes "https" else codes "http"))
      else mine

  chain-through :
      (client_ip : Text) (o : Option Text)
      → from_str (chain (and_then o to_str) client_ip) ≡ from_str (through client_ip (readable o))
  chain-through client_ip none = refl
  chain-through client_ip (some v) = by_text (to_str v)
    where
      by_text : (t : Option Text) → from_str (chain t client_ip) ≡ from_str (through client_ip t)
      by_text none = refl
      by_text (some t) = refl

  abbrev stripped : HeaderMap → HeaderMap
  stripped hs =
      let hs' = strip_hop_by_hop_headers to_str parse_name hs in
      if target.preserve_host_header then hs' else remove_header (codes "host") hs'

  stripped-get : (hs : HeaderMap) (name : Text) → get_header name (stripped hs) ≡ left_over hs name
  stripped-get hs name =
      let kept = strip_hop_by_hop_headers-get to_str parse_name name hs in
      let dropped =
        get_header-remove (codes "host") name (strip_hop_by_hop_headers to_str parse_name hs) in
      elim (Bool-cases target.preserve_host_header) [
        | inl e ↦ rw e (kept ∙ ground arith)
        | inr e ↦ rw e (dropped ∙ ground (arith, kept))
      ]

-- The three writes one after the other, and by the name that is read.
abbrev written :
    (Text → Option Text)
    → (Option Text → Option Text)
    → Option Text
    → Option Text
    → Text
    → Option Text
written left chained host proto name =
    let one =
      (if text_eq x_forwarded_for name
        then first_of (chained (left x_forwarded_for)) (left name)
        else left name) in
    let two = (if text_eq x_forwarded_host name then first_of one host else one) in
    if text_eq x_forwarded_proto name then first_of two proto else two

abbrev by_name :
    (Text → Option Text)
    → (Option Text → Option Text)
    → Option Text
    → Option Text
    → Text
    → Option Text
by_name left chained host proto name =
    if text_eq x_forwarded_for name
    then first_of (chained (left name)) (left name)
    else if text_eq x_forwarded_host name
    then first_of (left name) host
    else if text_eq x_forwarded_proto name
    then first_of (left name) proto
    else left name

written_lem :
    (left : Text → Option Text) (chained : Option Text → Option Text) (host proto : Option Text)
    (name : Text)
    → written left chained host proto name ≡ by_name left chained host proto name
unfolding text_eq
written_lem left chained host proto name =
    let at = λ (special : Text) (own : text_eq special name ≡ true).
      subst
        (λ n.
          written left chained host proto special ≡ by_name left chained host proto special
          → written left chained host proto n ≡ by_name left chained host proto n)
        ((text_eq_iff special name).0 own) (λ h. h) in
    elim (Bool-cases (text_eq x_forwarded_for name)) [
      | inl own ↦ at x_forwarded_for own refl
      | inr a ↦ elim (Bool-cases (text_eq x_forwarded_host name)) [
        | inl own ↦ at x_forwarded_host own refl
        | inr b ↦ rw (a, b) refl
      ]
    ]

-- What the request that goes upstream has under any name, its first value where there are several, is
-- what the specification says: the forwarded address chain extended by the client, the forwarded host and protocol filled in
-- where the client gave none, the hop-by-hop headers and those that `Connection` names gone, the
-- `Host` gone unless it is preserved, and every other header as it came.
pub prepare_upstream_headers-get :
    (to_str from_str parse_name : Text → Option Text) {Rule : Type 0} (target : UpstreamTarget Rule)
    (client_ip : Text) (tls : Bool) (hs : HeaderMap) (name : Text)
    → get_header name (prepare_upstream_headers to_str from_str parse_name target client_ip tls hs)
      ≡ expected to_str from_str parse_name target client_ip tls hs name
unfolding prepare_upstream_headers apply_forwarded_headers
prepare_upstream_headers-get to_str from_str parse_name target client_ip tls hs name =
    let start = stripped to_str from_str parse_name target hs in
    let existing = and_then (get_header x_forwarded_for start) to_str in
    let host = get_header (codes "host") hs in
    let v = from_str (chain existing client_ip) in
    let hs1 = set_if x_forwarded_for v start in
    let hs2 = set_absent x_forwarded_host host hs1 in
    let proto : Option Text = some (if tls then codes "https" else codes "http") in
    let a = get_header-set_if x_forwarded_for name v start in
    let b = get_header-set_absent x_forwarded_host name host hs1 in
    let c = get_header-set_absent x_forwarded_proto name proto hs2 in
    let s = stripped-get to_str from_str parse_name target hs in
    c
    ∙ rw (b, a, s name, s x_forwarded_for)
        (written_lem (left_over to_str from_str parse_name target hs)
            (λ o. from_str (chain (and_then o to_str) client_ip)) host proto name
          ∙ ap
              (λ v.
                if text_eq x_forwarded_for name
                then first_of v (left_over to_str from_str parse_name target hs name)
                else if text_eq x_forwarded_host name
                then first_of (left_over to_str from_str parse_name target hs name) host
                else if text_eq x_forwarded_proto name
                then first_of (left_over to_str from_str parse_name target hs name) proto
                else left_over to_str from_str parse_name target hs name)
              (chain-through to_str from_str parse_name target client_ip
                (left_over to_str from_str parse_name target hs name)))
