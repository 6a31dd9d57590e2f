-- ===== src/Proxy/Rewrite/Target.antt =====
-- The upstream path and query of rewrite.rs.
use g2way.Common.{
  ℕ, ◌≡◌, ◌≢◌, ◌⊎◌, inl, inr, refl, sym, ap, true, [], ◌∷◌, ◌++◌, Option, none, some, Text, codes,
  arith, is_empty, if◌then◌else◌, strip_prefix-append,
}
use mathlib.Core.List.{append_assoc}
use g2way.Proxy.Rewrite.{
  UpstreamTarget, trim_slashes, non_empty_query, join_paths, find_map, query_part, strip_or_all,
  tail_of, upstream_path_and_query,
}

-- A base path is empty or starts with a slash.
abbrev pub IsBase : Text → Type 0
IsBase base = (base ≡ []) ⊎ ((more : Text) × (base ≡ 47 ∷ more))

join_paths-slash :
    (base tail : Text) → IsBase base → (rest : Text) × (join_paths base tail ≡ 47 ∷ rest)
unfolding join_paths
join_paths-slash base tail h = go (trim_slashes tail) refl
  where
    go : (t : Text) → trim_slashes tail ≡ t → (rest : Text) × (join_paths base tail ≡ 47 ∷ rest)
    go [] e = elim h [
      | inl nothing ↦ ([], rw (e, join_paths) (rw nothing refl))
      | inr (more, b) ↦ (more, rw (e, join_paths) (rw b refl))
    ]
    go (c ∷ rest) e = elim h [
      | inl nothing ↦ (c ∷ rest, rw (e, join_paths) (rw nothing refl))
      | inr (more, b) ↦ (more ++ (47 ∷ c ∷ rest), rw (e, join_paths) (rw b refl))
    ]

query_part_ends :
    (r : Option Text) (c : ℕ) (q : Text)
    → (pre : Text) × (sep : ℕ) × (query_part r (some (c ∷ q)) ≡ pre ++ (sep ∷ c ∷ q))
      × ((sep ≡ 63) ⊎ (sep ≡ 38))
query_part_ends none c q = ([], 63, refl, inl refl)
query_part_ends (some r) c q = (63 ∷ r, 38, refl, inr refl)

-- Whatever the rewrite rules make of the path, the upstream gets one that starts with a slash, and
-- behind it, last, the client's query as it came, after a '?' or, if the rule brought a query of
-- its own, after a '&'.
pub upstream_path_and_query-ends :
    {Rule : Type 0} (apply : Rule → Text → Option Text) (target : UpstreamTarget Rule)
    (base_path req_path : Text) (c : ℕ) (q : Text)
    → IsBase base_path
    → (path : Text) × (sep : ℕ) × (upstream_path_and_query apply target base_path req_path
          (some (c ∷ q))
        ≡ 47 ∷ (path ++ (sep ∷ c ∷ q)))
      × ((sep ≡ 63) ⊎ (sep ≡ 38))
unfolding upstream_path_and_query
upstream_path_and_query-ends apply target base_path req_path c q h =
    let (tail, rewrite_query) = tail_of apply target req_path in
    let (rest, slash) = join_paths-slash base_path tail h in
    let (pre, sep, ends, kind) = query_part_ends rewrite_query c q in
    (
      rest ++ pre,
      sep,
      rw (slash, ends) (ap (λ (t : Text). 47 ∷ t) (sym (append_assoc rest pre (sep ∷ c ∷ q)))),
      kind,
    )

strip_tail :
    {Rule : Type 0} (apply : Rule → Text → Option Text) (target : UpstreamTarget Rule) (tail : Text)
    → target.strip_listen_path ≡ true
    → find_map (λ r. apply r (target.listen_prefix ++ tail)) target.rewrites ≡ none
    → tail_of apply target (target.listen_prefix ++ tail) ≡ (tail, none)
unfolding tail_of
strip_tail apply target tail s n =
    rw (n, tail_of) (rw s (rw (strip_prefix-append target.listen_prefix tail, strip_or_all) refl))

join_paths_segment :
    (base : Text) (c : ℕ) (rest : Text)
    → c ≢ 47
    → join_paths base (47 ∷ c ∷ rest) ≡ base ++ (47 ∷ c ∷ rest)
unfolding join_paths trim_slashes
join_paths_segment base c rest h = ground arith

-- A route that strips its prefix and rewrites nothing maps its whole prefix to the base path: what
-- follows the prefix, a slash and a segment, follows the base path, and the prefix by itself
-- becomes the base path, or '/' where that is empty.
pub upstream_path_and_query-strips :
    {Rule : Type 0} (apply : Rule → Text → Option Text) (target : UpstreamTarget Rule)
    (base_path : Text) (c : ℕ) (rest : Text) (query : Option Text)
    → target.strip_listen_path ≡ true
    → find_map (λ r. apply r (target.listen_prefix ++ (47 ∷ c ∷ rest))) target.rewrites ≡ none
    → find_map (λ r. apply r (target.listen_prefix ++ [])) target.rewrites ≡ none
    → c ≢ 47
    → let upstream = λ (path : Text). upstream_path_and_query apply target base_path path query in
      (upstream (target.listen_prefix ++ (47 ∷ c ∷ rest))
        ≡ (base_path ++ (47 ∷ c ∷ rest)) ++ query_part none (non_empty_query query))
      × (upstream (target.listen_prefix ++ [])
          ≡ (if is_empty base_path then codes "/" else base_path)
            ++ query_part none (non_empty_query query))
unfolding upstream_path_and_query join_paths trim_slashes
upstream_path_and_query-strips apply target base_path c rest query s n n' h = (
  rw (strip_tail apply target (47 ∷ c ∷ rest) s n, upstream_path_and_query)
      (rw (join_paths_segment base_path c rest h) refl),
  rw (strip_tail apply target [] s n', upstream_path_and_query) refl,
)
