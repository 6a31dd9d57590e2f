-- ===== src/Middleware/Cors/Answers.antt =====
-- What the CORS layer of cors.rs answers, by its configuration.
use g2way.Common.{
  ◌≡◌, refl, sym, ap, subst, ◌∙◌, ℕ, Bool, true, false, not, ◌&&◌, ◌||◌, [], Option, none, some,
  Text, codes, if◌then◌else◌, text_eq, ok, HeaderMap, get_header, insert_header,
}
use g2way.Middleware.Cors.{
  CorsConfig, CorsState, CorsRequest, CorsResponse, origin_header, allow_origin, vary,
  preflight_vary, origin_allowed, allow_origin_value, preflight_method_allowed,
  preflight_headers_allowed, approve, preflight_response, is_preflight, finish, call_with, call,
  from_config,
}
use g2way.Middleware.Cors.Asked.{
  method_granted, headers_granted, preflight_method_allowed-granted,
  preflight_headers_allowed-granted,
}
use g2way.Middleware.Cors.Granted.{
  from_config-IsFrom, granted, told_origin, approve-allow_origin, finish-allow_origin,
  origin_allowed-granted,
}

-- What a cross-origin request gets: a preflight that is not passed on, or any other.
module _ (to_str method_from_bytes : Text → Option Text) (config : CorsConfig) (req : CorsRequest)
    (origin : Text) where
  abbrev pub preflight_granted : Bool
  preflight_granted =
      granted config (to_str origin)
      && method_granted to_str method_from_bytes config req.headers
      && headers_granted to_str method_from_bytes config req.headers

  abbrev pub IsAnswered : {S : Type 0} → Bool → S → CorsResponse × S → CorsResponse × S → Type 0
  IsAnswered true s below (resp, s') =
      (s' ≡ s)
      × (resp.status ≡ 204)
      × (get_header allow_origin resp.headers
          ≡ (if preflight_granted then some (told_origin config origin) else none))
  IsAnswered false s (resp0, s0) (resp, s') =
      (s' ≡ s0)
      × (resp.status ≡ resp0.status)
      × (get_header allow_origin resp.headers ≡ (
          if granted config (to_str origin)
          then some (told_origin config origin)
          else get_header allow_origin resp0.headers))

module _ (to_str method_from_bytes : Text → Option Text) where
  preflight_response-allow_origin :
      (st : CorsState) (req : CorsRequest) (origin : Text)
      → get_header allow_origin (preflight_response to_str method_from_bytes st req origin).headers
        ≡ (if origin_allowed to_str method_from_bytes st origin
              && preflight_method_allowed to_str method_from_bytes st req.headers
              && preflight_headers_allowed to_str method_from_bytes st req.headers
            then some (allow_origin_value to_str method_from_bytes st origin)
            else none)
  unfolding preflight_response text_eq
  preflight_response-allow_origin st req origin =
      by_checks (origin_allowed to_str method_from_bytes st origin)
        (preflight_method_allowed to_str method_from_bytes st req.headers)
        (preflight_headers_allowed to_str method_from_bytes st req.headers)
        (approve to_str method_from_bytes st req origin _)
        (approve-allow_origin to_str method_from_bytes st req origin _)
    where
      by_checks :
          (a b c : Bool) (approved : HeaderMap)
          → get_header allow_origin approved
            ≡ some (allow_origin_value to_str method_from_bytes st origin)
          → get_header allow_origin
              (if not a || not b || not c then insert_header vary preflight_vary [] else approved)
            ≡ (if a && b && c
                then some (allow_origin_value to_str method_from_bytes st origin)
                else none)
      by_checks true true true approved e = e
      by_checks true true false approved e = refl
      by_checks true false c approved e = refl
      by_checks false b c approved e = refl

-- What the browser is told of a cross-origin request, which has an `Origin`. A preflight that is not
-- passed through never reaches the service below: it is answered 204, and allows the origin exactly
-- if the configuration lists it, ignoring case, or has a star, lists the method that the preflight
-- asks for, and lists every header that it asks for or lists none at all. Any other request reaches
-- the service, whose response keeps its status: for an origin that is listed, or under a star, it
-- allows the origin, and for any other it has the allowed origin that the service itself gave, if
-- it gave one. The origin that is allowed is a star under a star, and else the request's.
pub call-IsAnswered :
    {S : Type 0} (to_str header_value method_from_bytes : Text → Option Text) (digits : ℕ → Text)
    (config : CorsConfig) (st : CorsState) (inner : CorsRequest → S → CorsResponse × S)
    (req : CorsRequest) (origin : Text) (s : S)
    → from_config header_value method_from_bytes digits config ≡ ok st
    → get_header origin_header req.headers ≡ some origin
    → IsAnswered to_str method_from_bytes config req origin
        (is_preflight to_str method_from_bytes req && not config.options_passthrough)
        s
        (inner req s)
        (call to_str method_from_bytes inner st req s)
unfolding call allow_origin_value preflight_response
call-IsAnswered {S} to_str header_value method_from_bytes digits config st inner req origin s built
      cross =
    let h = from_config-IsFrom header_value method_from_bytes digits config st built in
    let told : allow_origin_value to_str method_from_bytes st origin ≡ told_origin config origin =
      ap (λ b. if b then codes "*" else origin) h.wildcard in
    let same =
      origin_allowed-granted to_str method_from_bytes header_value digits config st origin h in
    let by_method = preflight_method_allowed to_str method_from_bytes st req.headers in
    let by_headers = preflight_headers_allowed to_str method_from_bytes st req.headers in
    let preflight =
      preflight_response-allow_origin to_str method_from_bytes st req origin
      ∙ ap
          (λ b.
            if b && by_method && by_headers
            then some (allow_origin_value to_str method_from_bytes st origin)
            else none)
          same
      ∙ ap (λ v. if granted config (to_str origin) && by_method && by_headers then some v else none)
          told
      ∙ ap
          (λ b.
            if granted config (to_str origin) && b && by_headers
            then some (told_origin config origin)
            else none)
          (preflight_method_allowed-granted to_str method_from_bytes header_value digits config st h
            req.headers)
      ∙ ap
          (λ b.
            if granted config (to_str origin)
              && method_granted to_str method_from_bytes config req.headers
              && b
            then some (told_origin config origin)
            else none)
          (preflight_headers_allowed-granted to_str method_from_bytes header_value digits config st
            h req.headers) in
    let other =
      finish-allow_origin to_str method_from_bytes st origin (inner req s).0
      ∙ ap
          (λ b.
            if b
            then some (allow_origin_value to_str method_from_bytes st origin)
            else get_header allow_origin (inner req s).0.headers)
          same
      ∙ ap
          (λ v.
            if granted config (to_str origin)
            then some v
            else get_header allow_origin (inner req s).0.headers)
          told in
    let is_one = is_preflight to_str method_from_bytes req in
    subst
      (λ o.
        IsAnswered to_str method_from_bytes config req origin
          (is_one && not config.options_passthrough) s (inner req s)
          (call_with to_str method_from_bytes inner st req o s))
      (sym cross)
      (subst
        (λ p.
          IsAnswered to_str method_from_bytes config req origin (is_one && not p) s (inner req s)
            (call_with to_str method_from_bytes inner st req (some origin) s))
        h.passthrough
        (elim (is_one && not st.options_passthrough)
          as (λ b. IsAnswered to_str method_from_bytes config req origin b s (inner req s) (
            if b
            then (preflight_response to_str method_from_bytes st req origin, s)
            else (finish to_str method_from_bytes st origin (inner req s).0, (inner req s).1))) [
              | true ↦ (refl, refl, preflight)
              | false ↦ (refl, refl, other)
            ]))
