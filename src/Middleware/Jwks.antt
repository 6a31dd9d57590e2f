-- ===== src/Middleware/Jwks.antt =====
-- crates/g2-middleware/src/jwks.rs: the cache of the keys that a JWKS endpoint publishes.
--
-- The HTTP fetch, the two JSON documents and the making of a key are parameters. A fetch may change
-- the state of the world outside. What other tasks do to the cache while one awaits a fetch is left
-- out; the word that another task stores before the compare-and-swap is an argument.
pub mod Cooldown
pub mod Tests
use g2way.Common.{
  ℕ, ◌-◌, Bool, true, false, ◌&&◌, not, List, [], ◌∷◌, ◌++◌, Option, none, some, Text, codes, leb,
  ◌==◌, if◌then◌else◌, text_eq, lookup, insert, length, Result, ok, err, and_then,
}

abbrev pub miss_refetch_cooldown_secs : ℕ
miss_refetch_cooldown_secs = 10

pub data JwksEndpoint : Type 0 where
  url : Text → JwksEndpoint
  discovery : (issuer_url : Text) → JwksEndpoint

pub record DiscoveryDoc : Type 0 where
  pub issuer : Text
  pub jwks_uri : Text

-- A published key: its id, whether it is an RSA key, and whether an algorithm it names is RS256.
pub record Jwk : Type 0 where
  pub key_id : Option Text
  pub rsa : Bool
  pub key_algorithm_rs256 : Option Bool

-- Why a refresh fails.
pub data FetchError : Type 0 where
  unreachable bad_discovery_doc wrong_issuer bad_jwks_doc : FetchError

pub record Fetcher (W Key : Type 0) : Type 0 where
  pub fetch : Text → W → Option Text × W
  pub parse_discovery : Text → Option DiscoveryDoc
  pub parse_jwks : Text → Option (List Jwk)
  pub from_jwk : Jwk → Option Key

-- `resolved` is the cell that a discovery endpoint fills once.
pub record JwksCache (Key : Type 0) : Type 0 where
  pub endpoint : JwksEndpoint
  pub resolved : Option Text
  pub keys : List (Text × Key)
  pub last_attempt_secs : ℕ

-- `with_endpoint`.
unfoldable pub with_endpoint : {Key : Type 0} → JwksEndpoint → JwksCache Key
with_endpoint endpoint = record {
  endpoint = endpoint;
  resolved = none;
  keys = [];
  last_attempt_secs = 0;
}

-- `strip_suffix('/').unwrap_or(..)`.
abbrev pub strip_slash : Text → Text
strip_slash [] = []
strip_slash (c ∷ []) = if c == 47 then [] else c ∷ []
strip_slash (c ∷ d ∷ t) = c ∷ strip_slash (d ∷ t)

unfoldable pub discovery_url : Text → Text
discovery_url issuer_url = strip_slash issuer_url ++ codes "/.well-known/openid-configuration"

abbrev pub is_true_or_none : Option Bool → Bool
is_true_or_none none = true
is_true_or_none (some b) = b

-- What a discovery document makes of the cell: it is filled if the document names the issuer.
abbrev pub read_doc :
    {Key : Type 0}
    → JwksCache Key
    → Text
    → Option DiscoveryDoc
    → Result Text FetchError × JwksCache Key
read_doc c issuer_url none = (err bad_discovery_doc, c)
read_doc c issuer_url (some doc) =
    if text_eq doc.issuer issuer_url
    then (ok doc.jwks_uri, record c { resolved = some doc.jwks_uri })
    else (err wrong_issuer, c)

module _ {W Key : Type 0} (fetcher : Fetcher W Key) where
  abbrev pub fetched : JwksCache Key → Text → Option Text → Result Text FetchError × JwksCache Key
  fetched c issuer_url none = (err unreachable, c)
  fetched c issuer_url (some body) = read_doc c issuer_url (fetcher.parse_discovery body)

  abbrev pub url_of :
      JwksEndpoint → Option Text → JwksCache Key → W → (Result Text FetchError × JwksCache Key) × W
  url_of (url u) resolved c w = ((ok u, c), w)
  url_of (discovery issuer_url) (some u) c w = ((ok u, c), w)
  url_of (discovery issuer_url) none c w =
      let (body, w') = fetcher.fetch (discovery_url issuer_url) w in (fetched c issuer_url body, w')

  unfoldable pub jwks_url : JwksCache Key → W → (Result Text FetchError × JwksCache Key) × W
  jwks_url c w = url_of c.endpoint c.resolved c w

  -- The loop over the published keys: those with an id that are RSA keys for RS256 and usable.
  abbrev pub usable : Jwk → Option (Text × Key)
  usable jwk =
      if jwk.rsa && is_true_or_none jwk.key_algorithm_rs256
      then and_then jwk.key_id (λ kid. and_then (fetcher.from_jwk jwk) λ key. some (kid, key))
      else none

  abbrev pub add_usable : Option (Text × Key) → List (Text × Key) → List (Text × Key)
  add_usable none m = m
  add_usable (some (kid, key)) m = insert kid key m

  unfoldable pub collect_keys : List Jwk → List (Text × Key) → List (Text × Key)
  collect_keys [] m = m
  collect_keys (jwk ∷ jwks) m = collect_keys jwks (add_usable (usable jwk) m)

  abbrev pub read_set : JwksCache Key → Option (List Jwk) → Result ℕ FetchError × JwksCache Key
  read_set c none = (err bad_jwks_doc, c)
  read_set c (some jwks) = let m = collect_keys jwks [] in (ok (length m), record c { keys = m })

  abbrev pub stored : JwksCache Key → Option Text → Result ℕ FetchError × JwksCache Key
  stored c none = (err unreachable, c)
  stored c (some body) = read_set c (fetcher.parse_jwks body)

  -- The rest of a refresh, from the URL that it found.
  abbrev pub refresh_from :
      (Result Text FetchError × JwksCache Key) × W → (Result ℕ FetchError × JwksCache Key) × W
  refresh_from ((err e, c), w) = ((err e, c), w)
  refresh_from ((ok u, c), w) = let (body, w') = fetcher.fetch u w in (stored c body, w')

  unfoldable pub refresh : ℕ → JwksCache Key → W → (Result ℕ FetchError × JwksCache Key) × W
  refresh now c w = refresh_from (jwks_url (record c { last_attempt_secs = now }) w)

  abbrev pub interfere : Option ℕ → JwksCache Key → JwksCache Key
  interfere none c = c
  interfere (some secs) c = record c { last_attempt_secs = secs }

  -- The refetch if it was won, and the second look at the keys.
  abbrev pub look_again : Bool → ℕ → ℕ → Text → JwksCache Key → W → (Option Key × JwksCache Key) × W
  look_again true now refresh_now kid c w =
      let ((result, c'), w') = refresh refresh_now (record c { last_attempt_secs = now }) w in
      ((lookup kid c'.keys, c'), w')
  look_again false now refresh_now kid c w = ((lookup kid c.keys, c), w)

  -- The cooldown is over, and the word is still the one that was read.
  abbrev pub won_refetch : ℕ → JwksCache Key → JwksCache Key → Bool
  won_refetch now c c1 =
      leb miss_refetch_cooldown_secs (now - c.last_attempt_secs)
      && (c1.last_attempt_secs == c.last_attempt_secs)

  abbrev pub look :
      Option Key → Option ℕ → ℕ → ℕ → Text → JwksCache Key → W → (Option Key × JwksCache Key) × W
  look (some key) between now refresh_now kid c w = ((some key, c), w)
  look none between now refresh_now kid c w =
      let c1 = interfere between c in look_again (won_refetch now c c1) now refresh_now kid c1 w

  -- `now` is read for the cooldown and `refresh_now` at the start of the refresh; `between` is the
  -- attempt that another task has recorded since this one read the last.
  unfoldable pub key_for :
      Option ℕ → ℕ → ℕ → Text → JwksCache Key → W → (Option Key × JwksCache Key) × W
  key_for between now refresh_now kid c w = look (lookup kid c.keys) between now refresh_now kid c w
