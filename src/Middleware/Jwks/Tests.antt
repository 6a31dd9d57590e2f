-- ===== src/Middleware/Jwks/Tests.antt =====
-- The key cache of jwks.rs at concrete inputs. The world counts the fetches.
use g2way.Common.{
  ◌≡◌, refl, ℕ, ◌+◌, true, false, List, [], ◌∷◌, none, some, Text, codes, lookup, insert, text_eq,
  arith, ok, err,
}
use g2way.Middleware.Jwks.{
  url, discovery, Jwk, Fetcher, JwksCache, with_endpoint, discovery_url, jwks_url, collect_keys,
  refresh, key_for, wrong_issuer,
}
use g2way.Middleware.Jwks.Cooldown.{published, Call, run, key_for-cooldown, key_for-published}

runs : Unit {0}
unfolding with_endpoint discovery_url jwks_url collect_keys refresh key_for published lookup insert
    text_eq
runs = tt

abbrev rsa_key : Text → Jwk
rsa_key kid = record { key_id = some kid; rsa = true; key_algorithm_rs256 = none }

abbrev toy_jwks : List Jwk
toy_jwks =
    rsa_key (codes "a")
    ∷ record (rsa_key (codes "b")) { rsa = false }
    ∷ record (rsa_key (codes "c")) { key_algorithm_rs256 = some false }
    ∷ rsa_key (codes "d")
    ∷ []

abbrev toy : Fetcher ℕ ℕ
toy = record {
  fetch = λ u n. (some u, n + 1);
  parse_discovery = λ t. some (record { issuer = codes "i"; jwks_uri = codes "k" });
  parse_jwks = λ t. some toy_jwks;
  from_jwk = λ jwk. some 7;
}

abbrev fresh_cache : JwksCache ℕ
fresh_cache = record {
  endpoint = url (codes "k");
  resolved = none;
  keys = [];
  last_attempt_secs = 0;
}

abbrev at : Text → ℕ → Call
at kid now = record { kid = kid; now = now; refresh_now = now }

fresh_cache-is : with_endpoint (url (codes "k")) ≡ fresh_cache
unfolding runs
fresh_cache-is = refl

-- The keys that are not RSA keys for RS256 are left out.
refresh-keys : (refresh toy 5 fresh_cache 0).0 ≡ (
  ok 2,
  record fresh_cache { keys = (codes "a", 7) ∷ (codes "d", 7) ∷ []; last_attempt_secs = 5 },
)
unfolding runs
refresh-keys = refl

wrong_issuer-fails :
    (refresh toy 5 (record fresh_cache { endpoint = discovery (codes "j/") }) 0).0.0
    ≡ err wrong_issuer
unfolding runs
wrong_issuer-fails = refl

-- Two unknown ids within ten seconds fetch once.
abbrev misses : List Call
misses = at (codes "b") 15 ∷ at (codes "zz") 19 ∷ []

key_for-cooldown_example : run toy (at (codes "zz") 10 ∷ misses) fresh_cache 0 ≡ (
    let ((result, c'), w') = refresh toy 10 (record fresh_cache { last_attempt_secs = 10 }) 0 in
    (c', w'))
unfolding runs
key_for-cooldown_example =
    key_for-cooldown toy (at (codes "zz") 10) misses fresh_cache 0 refl (omega arith)
      (omega arith, (omega arith, tt))

key_for-published_example :
    (key_for toy none 10 10 (codes "d") fresh_cache 0).0.0 ≡ published toy (codes "d") toy_jwks none
unfolding runs
key_for-published_example =
    key_for-published toy (at (codes "d") 10) fresh_cache 0 0 1 (codes "k") (codes "k")
      (record fresh_cache { last_attempt_secs = 10 }) toy_jwks refl (omega arith) refl refl refl
