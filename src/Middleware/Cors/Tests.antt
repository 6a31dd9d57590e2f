-- ===== src/Middleware/Cors/Tests.antt =====
-- The CORS layer of cors.rs at concrete inputs.
use g2way.Common.{
  ◌≡◌, refl, ℕ, true, false, [], ◌∷◌, ◌&&◌, not, Option, none, some, Text, codes, text_eq, ok,
}
use g2way.Middleware.Cors.{
  CorsConfig, CorsState, CorsRequest, CorsResponse, origin_allowed, allow_origin_value,
  preflight_method_allowed, preflight_headers_allowed, approve, preflight_response, decorate, call,
  from_config, is_preflight,
}
use g2way.Middleware.Cors.Answers.{IsAnswered, call-IsAnswered}

runs : Unit {0}
unfolding origin_allowed allow_origin_value preflight_method_allowed preflight_headers_allowed
    approve preflight_response decorate call from_config text_eq
runs = tt

abbrev whole : Text → Option Text
whole t = some t

abbrev no_digits : ℕ → Text
no_digits n = codes "600"

abbrev config : CorsConfig
config = record {
  allowed_origins = codes "https://Shop.example" ∷ [];
  allowed_methods = codes "get" ∷ codes "PUT" ∷ [];
  allowed_headers = codes "X-Key" ∷ [];
  exposed_headers = [];
  allow_credentials = true;
  max_age_secs = some 600;
  options_passthrough = false;
}

abbrev state : CorsState
state = record {
  wildcard = false;
  origins = codes "https://shop.example" ∷ [];
  allowed_methods = codes "GET" ∷ codes "PUT" ∷ [];
  allow_methods_value = codes "GET, PUT";
  allow_headers_value = some (codes "X-Key");
  allowed_headers_lower = codes "x-key" ∷ [];
  expose_headers_value = none;
  credentials = true;
  max_age = some (codes "600");
  options_passthrough = false;
}

config-state : from_config whole whole no_digits config ≡ ok state
unfolding runs
config-state = refl

abbrev shop_origin : Text
shop_origin = codes "https://SHOP.example"

abbrev preflight : CorsRequest
preflight = record {
  method = codes "OPTIONS";
  headers =
      (codes "origin", shop_origin)
      ∷ (codes "access-control-request-method", codes "PUT")
      ∷ (codes "access-control-request-headers", codes "x-key, ")
      ∷ [];
}

-- The service below counts its calls.
abbrev inner : CorsRequest → ℕ → CorsResponse × ℕ
inner req n = (record { status = 200; headers = [] }, 1)

preflight-answer : call whole whole inner state preflight 0 ≡ (
  record {
    status = 204;
    headers =
        (codes "access-control-max-age", codes "600")
        ∷ (codes "access-control-allow-credentials", codes "true")
        ∷ (codes "access-control-allow-headers", codes "X-Key")
        ∷ (codes "access-control-allow-methods", codes "GET, PUT")
        ∷ (codes "access-control-allow-origin", shop_origin)
        ∷ (
          codes "vary",
          codes "origin, access-control-request-method, access-control-request-headers",
        )
        ∷ [];
  },
  0,
)
unfolding runs
preflight-answer = refl

call-IsAnswered_example :
    IsAnswered whole whole config preflight shop_origin
      (is_preflight whole whole preflight && not config.options_passthrough)
      0
      (inner preflight 0)
      (call whole whole inner state preflight 0)
unfolding runs
call-IsAnswered_example =
    call-IsAnswered whole whole whole no_digits config state inner preflight shop_origin 0
      config-state refl

-- The service below allows any origin itself, which an origin that is not listed gets to see.
abbrev open_inner : CorsRequest → ℕ → CorsResponse × ℕ
open_inner req n =
    (record { status = 200; headers = (codes "access-control-allow-origin", codes "*") ∷ [] }, 1)

unlisted-answer :
    call whole whole open_inner state
      (record {
        method = codes "GET";
        headers = (codes "origin", codes "https://other.example") ∷ [];
      })
      0
    ≡ (
      record {
        status = 200;
        headers =
            (codes "access-control-allow-origin", codes "*") ∷ (codes "vary", codes "origin") ∷ [];
      },
      1,
    )
unfolding runs
unlisted-answer = refl
