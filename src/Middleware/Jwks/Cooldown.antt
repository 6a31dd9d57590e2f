-- ===== src/Middleware/Jwks/Cooldown.antt =====
-- What a refresh of jwks.rs does to the keys, and how often an unknown key id makes it fetch.
use g2way.Common.{
  ◌≡◌, refl, ap, ◌∙◌, inl, inr, ℕ, ◌+◌, ◌-◌, ◌≤◌, ◌<◌, true, false, ◌&&◌, List, [], ◌∷◌, Option,
  none, some, Text, arith, All, All-map, leb, ◌==◌, if◌then◌else◌, text_eq, lookup, insert,
  lookup-insert, Result, ok, err, Option-cases,
}
use g2way.Middleware.Jwks.{
  JwksEndpoint, url, discovery, DiscoveryDoc, read_doc, url_of, read_set, refresh_from, Jwk,
  Fetcher, JwksCache, jwks_url, usable, collect_keys, stored, refresh, key_for, look, look_again,
  fetched, FetchError,
}

module _ {W Key : Type 0} (fetcher : Fetcher W Key) where
  -- The last usable key that a document publishes under an id, or else what was there.
  unfoldable pub published : Text → List Jwk → Option Key → Option Key
  published kid [] old = old
  published kid (jwk ∷ jwks) old = elim (usable fetcher jwk) [
    | none ↦ published kid jwks old
    | some (k, key) ↦ published kid jwks (if text_eq k kid then some key else old)
  ]

module _ {W Key : Type 0} (fetcher : Fetcher W Key) where
  collect_keys-lookup :
      (kid : Text) (jwks : List Jwk) (m : List (Text × Key))
      → lookup kid (collect_keys fetcher jwks m) ≡ published fetcher kid jwks (lookup kid m)
  unfolding collect_keys published
  collect_keys-lookup kid [] m = refl
  collect_keys-lookup kid (jwk ∷ jwks) m = elim (Option-cases (usable fetcher jwk)) [
    | inl e ↦ rw (e, published, collect_keys) (collect_keys-lookup kid jwks m)
    | inr ((k, key), e) ↦
        rw (e, published, collect_keys)
          (collect_keys-lookup kid jwks (insert k key m)
            ∙ ap (published fetcher kid jwks) (lookup-insert k kid key m))
  ]

  -- What finding the URL leaves alone.
  abbrev IsSame : JwksCache Key → JwksCache Key → Type 0
  IsSame c c' = (c'.keys ≡ c.keys) × (c'.last_attempt_secs ≡ c.last_attempt_secs)

  fetched-IsSame :
      (c : JwksCache Key) (issuer_url : Text) (body : Option Text)
      → IsSame c (fetched fetcher c issuer_url body).1
  fetched-IsSame c issuer_url none = (refl, refl)
  fetched-IsSame c issuer_url (some body) = by_doc (fetcher.parse_discovery body)
    where
      by_doc : (o : Option DiscoveryDoc) → IsSame c (read_doc c issuer_url o).1
      by_doc none = (refl, refl)
      by_doc (some doc) = ground arith

  jwks_url-IsSame : (c : JwksCache Key) (w : W) → IsSame c (jwks_url fetcher c w).0.1
  unfolding jwks_url
  jwks_url-IsSame c w = by_endpoint c.endpoint c.resolved
    where
      by_endpoint : (e : JwksEndpoint) (o : Option Text) → IsSame c (url_of fetcher e o c w).0.1
      by_endpoint (url u) o = (refl, refl)
      by_endpoint (discovery issuer_url) (some u) = (refl, refl)
      by_endpoint (discovery issuer_url) none = fetched-IsSame c issuer_url _

  -- What a refresh has come to: the keys of a document that it read, or else the old ones.
  abbrev pub IsRefreshed : JwksCache Key → Result ℕ FetchError → JwksCache Key → Type 0
  IsRefreshed c (ok n) c' =
      (body : Text) × (jwks : List Jwk) × (fetcher.parse_jwks body ≡ some jwks)
      × (c'.keys ≡ collect_keys fetcher jwks [])
  IsRefreshed c (err e) c' = c'.keys ≡ c.keys

  stored-IsRefreshed :
      (c : JwksCache Key) (body : Option Text)
      → IsRefreshed c (stored fetcher c body).0 (stored fetcher c body).1
        × ((stored fetcher c body).1.last_attempt_secs ≡ c.last_attempt_secs)
  stored-IsRefreshed c none = (refl, refl)
  stored-IsRefreshed c (some body) = by_set (fetcher.parse_jwks body) refl
    where
      by_set :
          (o : Option (List Jwk))
          → fetcher.parse_jwks body ≡ o
          → IsRefreshed c (read_set fetcher c o).0 (read_set fetcher c o).1
            × ((read_set fetcher c o).1.last_attempt_secs ≡ c.last_attempt_secs)
      by_set none e = (refl, refl)
      by_set (some jwks) e = ((body, jwks, e, refl), refl)

  IsRefreshed-from :
      (c c' : JwksCache Key)
      → c'.keys ≡ c.keys
      → (r : Result ℕ FetchError) (c'' : JwksCache Key) → IsRefreshed c' r c''
      → IsRefreshed c r c''
  IsRefreshed-from c c' same (ok n) c'' h = h
  IsRefreshed-from c c' same (err e) c'' h = h ∙ same

  refresh_from-IsRefreshed :
      (c : JwksCache Key) (now : ℕ) (r : (Result Text FetchError × JwksCache Key) × W)
      → IsSame (record c { last_attempt_secs = now }) r.0.1
      → IsRefreshed c (refresh_from fetcher r).0.0 (refresh_from fetcher r).0.1
        × ((refresh_from fetcher r).0.1.last_attempt_secs ≡ now)
  refresh_from-IsRefreshed c now ((err e, c'), w) (keys, last) = (keys, last)
  refresh_from-IsRefreshed c now ((ok u, c'), w) (keys, last) =
      let (body, w') = fetcher.fetch u w in
      let (kept, at) = stored-IsRefreshed c' body in
      (
        IsRefreshed-from c c' keys (stored fetcher c' body).0 (stored fetcher c' body).1 kept,
        at ∙ last,
      )

  -- A refresh records its time and leaves the keys as they were, if it fails, or puts those of the
  -- document that it read in their place.
  pub refresh-IsRefreshed :
      (now : ℕ) (c : JwksCache Key) (w : W)
      → IsRefreshed c (refresh fetcher now c w).0.0 (refresh fetcher now c w).0.1
        × ((refresh fetcher now c w).0.1.last_attempt_secs ≡ now)
  unfolding refresh
  refresh-IsRefreshed now c w =
      refresh_from-IsRefreshed c now (jwks_url fetcher (record c { last_attempt_secs = now }) w)
        (jwks_url-IsSame (record c { last_attempt_secs = now }) w)

-- A call of `key_for`, and many one after the other.
pub record Call : Type 0 where
  pub kid : Text
  pub now : ℕ
  pub refresh_now : ℕ

module _ {W Key : Type 0} (fetcher : Fetcher W Key) where
  abbrev pub after : Call → JwksCache Key → W → JwksCache Key × W
  after call c w =
      let ((key, c'), w') = key_for fetcher none call.now call.refresh_now call.kid c w in (c', w')

  abbrev pub run : List Call → JwksCache Key → W → JwksCache Key × W
  run [] c w = (c, w)
  run (call ∷ calls) c w = let (c', w') = after call c w in run calls c' w'

module _ {W Key : Type 0} (fetcher : Fetcher W Key) where
  look-quiet :
      (o : Option Key) (call : Call) (c : JwksCache Key) (w : W)
      → lookup call.kid c.keys ≡ o
      → call.now < c.last_attempt_secs + 10
      → look fetcher o none call.now call.refresh_now call.kid c w ≡ ((o, c), w)
  look-quiet (some key) call c w e h = refl
  look-quiet none call c w e h =
      ap
        (λ b.
          look_again fetcher (b && (c.last_attempt_secs == c.last_attempt_secs)) call.now
            call.refresh_now call.kid c w)
        (not_yet call.now c.last_attempt_secs h)
      ∙ ap (λ o. ((o, c), w)) e
    where
      not_yet : (now last : ℕ) → now < last + 10 → leb 10 (now - last) ≡ false
      not_yet now last h = ground arith

  after-quiet :
      (call : Call) (c : JwksCache Key) (w : W)
      → call.now < c.last_attempt_secs + 10
      → after fetcher call c w ≡ (c, w)
  unfolding key_for
  after-quiet call c w h =
      ap (λ r. (r.0.1, r.1)) (look-quiet (lookup call.kid c.keys) call c w refl h)

  run-quiet :
      (calls : List Call) (c : JwksCache Key) (w : W)
      → All (λ (call : Call). call.now < c.last_attempt_secs + 10) calls
      → run fetcher calls c w ≡ (c, w)
  run-quiet [] c w h = refl
  run-quiet (call ∷ calls) c w (h, hs) =
      ap (λ r. run fetcher calls r.0 r.1) (after-quiet call c w h) ∙ run-quiet calls c w hs

  -- A call that misses once the cooldown is over is a refresh and a second look.
  key_for-refetch :
      (call : Call) (c : JwksCache Key) (w : W)
      → lookup call.kid c.keys ≡ none
      → c.last_attempt_secs + 10 ≤ call.now
      → key_for fetcher none call.now call.refresh_now call.kid c w
        ≡ look_again fetcher true call.now call.refresh_now call.kid c w
  unfolding key_for
  key_for-refetch call c w e h =
      ap (λ o. look fetcher o none call.now call.refresh_now call.kid c w) e
      ∙ ap (λ b. look_again fetcher b call.now call.refresh_now call.kid c w)
          (elapsed call.now c.last_attempt_secs h)
    where
      elapsed : (now last : ℕ) → last + 10 ≤ now → (leb 10 (now - last) && (last == last)) ≡ true
      elapsed now last h = ground arith

  -- An unknown key id makes the cache fetch once the cooldown of ten seconds is over, and no call of
  -- the next ten seconds after that, whatever ids it asks for, fetches anything or changes a key,
  -- whether the refetch succeeded or not.
  pub key_for-cooldown :
      (call : Call) (calls : List Call) (c : JwksCache Key) (w : W)
      → lookup call.kid c.keys ≡ none
      → c.last_attempt_secs + 10 ≤ call.now
      → All (λ (later : Call). later.now < call.refresh_now + 10) calls
      → run fetcher (call ∷ calls) c w ≡ (
          let ((result, c'), w') =
            refresh fetcher call.refresh_now (record c { last_attempt_secs = call.now }) w in
          (c', w'))
  key_for-cooldown call calls c w e h hs =
      let r = refresh fetcher call.refresh_now (record c { last_attempt_secs = call.now }) w in
      let (kept, at) =
        refresh-IsRefreshed fetcher call.refresh_now (record c { last_attempt_secs = call.now })
          w in
      ap (λ a. run fetcher calls a.0.1 a.1) (key_for-refetch call c w e h)
      ∙ run-quiet calls r.0.1 r.1 (
          All-map (λ (later : Call). later.now < call.refresh_now + 10) _ (λ later k. rw at k) calls
            hs)

  -- A key that is not in the cache is found, once the cooldown is over, if the endpoint publishes it:
  -- the answer is the last usable key that the document has under the id.
  pub key_for-published :
      (call : Call) (c : JwksCache Key) (w w' w'' : W) (u body : Text) (c' : JwksCache Key)
      (jwks : List Jwk)
      → lookup call.kid c.keys ≡ none
      → c.last_attempt_secs + 10 ≤ call.now
      → jwks_url fetcher (record c { last_attempt_secs = call.refresh_now }) w ≡ ((ok u, c'), w')
      → fetcher.fetch u w' ≡ (some body, w'')
      → fetcher.parse_jwks body ≡ some jwks
      → (key_for fetcher none call.now call.refresh_now call.kid c w).0.0
        ≡ published fetcher call.kid jwks none
  unfolding refresh lookup
  key_for-published call c w w' w'' u body c' jwks e h found fetched_ parsed =
      ap (λ r. r.0.0) (key_for-refetch call c w e h)
      ∙ ap (λ r. lookup call.kid (refresh_from fetcher r).0.1.keys) found
      ∙ ap (λ r. lookup call.kid (stored fetcher c' r.0).1.keys) fetched_
      ∙ ap (λ o. lookup call.kid (read_set fetcher c' o).1.keys) parsed
      ∙ collect_keys-lookup fetcher call.kid jwks []
