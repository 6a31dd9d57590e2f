-- ===== src/Middleware/Transforms/Tests.antt =====
-- The header transforms at concrete inputs.
use g2way.Common.{
  ◌≡◌, refl, ℕ, [], ◌∷◌, Option, none, some, Text, codes, text_eq, to_ascii_lowercase, ok, err,
  HeaderMap,
}
use g2way.Middleware.Transforms.{
  HeaderTransforms, HeaderTransformLayer, bad_name, sets_hop_by_hop, validate_added,
  validate_removed, validate, compile, from_config, apply, call,
}
use g2way.Middleware.Transforms.Applied.{IsTransformed, IsAnswerTo, validate-call}

runs : Unit {0}
unfolding validate_added validate_removed validate compile from_config apply call text_eq
runs = tt

abbrev lowered : Text → Option Text
lowered [] = none
lowered (c ∷ t) = some (to_ascii_lowercase (c ∷ t))

abbrev whole : Text → Option Text
whole t = some t

abbrev config : HeaderTransforms
config = record {
  request = record {
    add = (codes "X-Env", codes "prod") ∷ (codes "x-env", codes "last") ∷ [];
    remove = codes "X-Debug" ∷ [];
  };
  response = record { add = []; remove = codes "Server" ∷ [] };
}

config-valid : validate lowered whole config ≡ ok tt
unfolding runs
config-valid = refl

hop_by_hop_added :
    validate lowered whole (record config {
      request = record { add = (codes "Upgrade", codes "h2c") ∷ []; remove = [] };
    })
    ≡ err (sets_hop_by_hop (codes "Upgrade"))
unfolding runs
hop_by_hop_added = refl

nameless_removed :
    validate lowered whole (record config { response = record { add = []; remove = [] ∷ [] } })
    ≡ err (bad_name [])
unfolding runs
nameless_removed = refl

abbrev layer : HeaderTransformLayer
layer = record {
  request = record {
    remove = codes "x-debug" ∷ [];
    add = (codes "x-env", codes "prod") ∷ (codes "x-env", codes "last") ∷ [];
  };
  response = record { remove = codes "server" ∷ []; add = [] };
}

config-layer : from_config lowered whole config ≡ ok layer
unfolding runs
config-layer = refl

abbrev headers : HeaderMap
headers = (codes "x-debug", codes "1") ∷ (codes "x-env", codes "dev") ∷ []

-- The service below answers with the headers it got and a header of its own, and counts its calls.
abbrev inner : HeaderMap × Text → ℕ → (HeaderMap × ℕ) × ℕ
inner (hs, path) n = (((codes "server", codes "s") ∷ hs, 200), 1)

answer : call layer inner (headers, codes "/") 0 ≡ (((codes "x-env", codes "last") ∷ [], 200), 1)
unfolding runs
answer = refl

validate-call_example :
    (layer' : HeaderTransformLayer) × (from_config lowered whole config ≡ ok layer')
    × (sent : HeaderMap) × IsTransformed lowered whole config.request headers sent
    × IsAnswerTo lowered whole config.response
        (inner (sent, codes "/") 0)
        (call layer' inner (headers, codes "/") 0)
validate-call_example = validate-call lowered whole config inner headers (codes "/") 0 config-valid
