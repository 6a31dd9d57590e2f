-- ===== src/Middleware/Auth/Config/Tests.antt =====
-- The configuration of the auth layer at concrete inputs.
use g2way.Common.{◌≡◌, refl, ℕ, true, false, [], ◌∷◌, none, some, codes, ok, err}
use g2way.Middleware.Jwks.{discovery}
use g2way.Middleware.Auth.{Api}
use g2way.Middleware.Auth.Claims.{rs256}
use g2way.Middleware.Auth.Modes.{oidc}
use g2way.Middleware.Auth.Config.{
  OidcConfig, keyless, oidc_auth, no_fetcher, AuthLayer, ConfigParsers, mode_of, from_config,
}
use g2way.Middleware.Auth.Config.Strict.{IsBuilt, from_config-IsBuilt}

built : Unit {0}
unfolding mode_of from_config
built = tt

abbrev toy_parsers : ConfigParsers ℕ
toy_parsers = record {
  header_name = λ t. some t;
  header_value = λ t. some t;
  from_secret = λ t. 1;
  from_rsa_pem = λ t. some 2;
}

abbrev shop : Api
shop = record { api_id = codes "shop"; org_id = codes "acme" }

abbrev single_sign_on : OidcConfig
single_sign_on = record {
  issuer_url = codes "https://idp";
  audiences = codes "shop" ∷ [];
  jwks_url = none;
  jwks_refresh_secs = none;
  header = codes "authorization";
  identity_claim = codes "sub";
  policy_claim = codes "azp";
  policy_map = [];
}

abbrev layer : AuthLayer ℕ
layer = record {
  api = shop;
  mode =
      oidc (codes "authorization")
        (record {
          algorithm = rs256;
          issuer = some (codes "https://idp");
          audience = some (codes "shop" ∷ []);
          required_spec_claims = codes "exp" ∷ codes "iss" ∷ codes "aud" ∷ [];
        })
        (codes "sub") none;
  cache = some (discovery (codes "https://idp"), 300);
}

keyless-builds : from_config toy_parsers false shop keyless ≡ ok none
unfolding built
keyless-builds = refl

needs_fetcher : from_config toy_parsers false shop (oidc_auth single_sign_on) ≡ err no_fetcher
unfolding built
needs_fetcher = refl

from_config-IsBuilt_example : IsBuilt (oidc_auth single_sign_on) (some layer)
unfolding built
from_config-IsBuilt_example =
    from_config-IsBuilt toy_parsers true shop (oidc_auth single_sign_on) (some layer) refl
