-- ===== src/Proxy/Rewrite/Dropped.antt =====
-- Which headers rewrite.rs keeps to the connection that they came on.
use g2way.Common.{
  ◌≡◌, refl, ap, ◌∙◌, Bool, true, false, ◌&&◌, ◌||◌, List, [], ◌∷◌, ◌++◌, Option, none, some, Text,
  codes, arith, any, if◌then◌else◌, text_eq, HeaderMap, remove_header, get_header,
  get_header-remove, split, trim, filter_map, flat_map,
}
use g2way.Proxy.Rewrite.{remove_all, hop_by_hop, connection_values, named, strip_hop_by_hop_headers}

abbrev pub among : List Text → Text → Bool
among names name = any (λ n. text_eq n name) names

get_header-remove_all :
    (names : List Text) (name : Text) (hs : HeaderMap)
    → get_header name (remove_all names hs)
      ≡ (if among names name then none else get_header name hs)
get_header-remove_all [] name hs = refl
get_header-remove_all (n ∷ names) name hs =
    ground
      (arith, get_header-remove_all names name (remove_header n hs), get_header-remove n name hs)

-- The specification of what is not sent on: RFC 9110's fields of a single connection, and the
-- fields that a `Connection` header of the message names.
abbrev pub rfc_fields : List Text
rfc_fields =
    codes "connection"
    ∷ codes "keep-alive"
    ∷ codes "proxy-authenticate"
    ∷ codes "proxy-authorization"
    ∷ codes "te"
    ∷ codes "trailer"
    ∷ codes "transfer-encoding"
    ∷ codes "upgrade"
    ∷ []

module _ (to_str parse_name : Text → Option Text) where
  abbrev pub is_option : Text → Option Text → Bool
  is_option name none = false
  is_option name (some option) = text_eq option name

  -- A value whose pieces between commas have the name among them.
  abbrev pub lists : Text → Option Text → Bool
  lists name none = false
  lists name (some value) = any (λ piece. is_option name (parse_name (trim piece))) (split 44 value)

  abbrev pub is_named : HeaderMap → Text → Bool
  is_named [] name = false
  is_named ((n, v) ∷ hs) name =
      (text_eq (codes "connection") n && lists name (to_str v)) || is_named hs name

  abbrev pub is_dropped : HeaderMap → Text → Bool
  is_dropped hs name = among rfc_fields name || is_named hs name

  among-filter_map :
      (pieces : List Text) (name : Text)
      → among (filter_map (λ piece. parse_name (trim piece)) pieces) name
        ≡ any (λ piece. is_option name (parse_name (trim piece))) pieces
  among-filter_map [] name = refl
  among-filter_map (piece ∷ pieces) name =
      by_option (parse_name (trim piece)) (among-filter_map pieces name)
    where
      by_option :
          (o : Option Text)
          → among (filter_map (λ p. parse_name (trim p)) pieces) name
            ≡ any (λ p. is_option name (parse_name (trim p))) pieces
          → among
              (elim o [
                | none ↦ filter_map (λ p. parse_name (trim p)) pieces
                | some y ↦ y ∷ filter_map (λ p. parse_name (trim p)) pieces
              ])
              name
            ≡ (is_option name o || any (λ p. is_option name (parse_name (trim p))) pieces)
      by_option none ih = ih
      by_option (some option) ih = ap (λ b. text_eq option name || b) ih

  any_append : (p : Text → Bool) (xs ys : List Text) → any p (xs ++ ys) ≡ (any p xs || any p ys)
  any_append p [] ys = refl
  any_append p (x ∷ xs) ys = ground (arith, any_append p xs ys)

  any-pieces :
      (hs : HeaderMap) (name : Text)
      → any
          (λ piece. is_option name (parse_name (trim piece)))
          (flat_map (split 44) (connection_values to_str parse_name hs))
        ≡ is_named hs name
  any-pieces [] name = refl
  any-pieces ((n, v) ∷ hs) name =
      by_entry (text_eq (codes "connection") n) (to_str v) (any-pieces hs name)
    where
      by_entry :
          (own : Bool) (o : Option Text)
          → any
              (λ piece. is_option name (parse_name (trim piece)))
              (flat_map (split 44) (connection_values to_str parse_name hs))
            ≡ is_named hs name
          → any
              (λ piece. is_option name (parse_name (trim piece)))
              (flat_map (split 44) (elim (if own then o else none) [
                | none ↦ connection_values to_str parse_name hs
                | some y ↦ y ∷ connection_values to_str parse_name hs
              ]))
            ≡ ((own && lists name o) || is_named hs name)
      by_entry false o ih = ih
      by_entry true none ih = ih
      by_entry true (some value) ih =
          any_append (λ piece. is_option name (parse_name (trim piece))) (split 44 value)
            (flat_map (split 44) (connection_values to_str parse_name hs))
          ∙ ap (λ b. lists name (some value) || b) ih

  among-dropped :
      (hs : HeaderMap) (name : Text)
      → (among hop_by_hop name || among (named to_str parse_name hs) name) ≡ is_dropped hs name
  unfolding hop_by_hop named
  among-dropped hs name =
      ap (λ b. among rfc_fields name || b)
        (among-filter_map (flat_map (split 44) (connection_values to_str parse_name hs)) name
          ∙ any-pieces hs name)

  -- The headers that are left are the others.
  pub strip_hop_by_hop_headers-get :
      (name : Text) (hs : HeaderMap)
      → get_header name (strip_hop_by_hop_headers to_str parse_name hs)
        ≡ (if is_dropped hs name then none else get_header name hs)
  unfolding strip_hop_by_hop_headers
  strip_hop_by_hop_headers-get name hs = ground (
    arith,
    get_header-remove_all hop_by_hop name (remove_all (named to_str parse_name hs) hs),
    get_header-remove_all (named to_str parse_name hs) name hs,
    among-dropped hs name,
  )
