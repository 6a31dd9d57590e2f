-- ===== src/Middleware/Transforms.antt =====
-- crates/g2-middleware/src/transform_headers.rs and the header part of crates/g2-core/src/transform.rs:
-- the headers that an API adds to and removes from its requests and responses.
--
-- `HeaderName::from_bytes`, which lowers the name, and `HeaderValue::from_str` are parameters. The
-- entries of the `BTreeMap` of the headers to add are in the order of their keys.
pub mod Applied
pub mod Tests
use g2way.Common.{
  ◌≡◌, Bool, true, false, List, [], ◌∷◌, Option, none, some, Text, codes, eq_ignore_ascii_case, any,
  Result, ok_or, ok, err, ◌>>=◌, ◌>>◌, fail_if, collect, HeaderMap, remove_header, insert_header,
}

pub hop_by_hop : List Text
hop_by_hop =
    codes "connection"
    ∷ codes "keep-alive"
    ∷ codes "proxy-authenticate"
    ∷ codes "proxy-authorization"
    ∷ codes "te"
    ∷ codes "trailer"
    ∷ codes "transfer-encoding"
    ∷ codes "upgrade"
    ∷ []

pub record HeaderTransform : Type 0 where
  pub add : List (Text × Text)
  pub remove : List Text

pub record HeaderTransforms : Type 0 where
  pub request : HeaderTransform
  pub response : HeaderTransform

pub data TransformError : Type 0 where
  bad_name : Text → TransformError
  sets_hop_by_hop : Text → TransformError
  bad_value : Text → TransformError

pub record CompiledRules : Type 0 where
  pub remove : List Text
  pub add : List (Text × Text)

pub record HeaderTransformLayer : Type 0 where
  pub request : CompiledRules
  pub response : CompiledRules

module _ (header_name header_value : Text → Option Text) where
  unfoldable pub validate_added : List (Text × Text) → Result (Unit {0}) TransformError
  unfolding hop_by_hop
  validate_added [] = ok tt
  validate_added ((name, value) ∷ add) =
      let rest = validate_added add in
      ok_or (header_name name) (bad_name name) >>= λ _.
      fail_if (any (λ h. eq_ignore_ascii_case h name) hop_by_hop) (sets_hop_by_hop name)
      >> (ok_or (header_value value) (bad_value name) >>= λ _. rest)

  unfoldable pub validate_removed : List Text → Result (Unit {0}) TransformError
  validate_removed [] = ok tt
  validate_removed (name ∷ remove) =
      let rest = validate_removed remove in ok_or (header_name name) (bad_name name) >>= λ _. rest

  abbrev pub validate_transform : HeaderTransform → Result (Unit {0}) TransformError
  validate_transform t = validate_added t.add >> validate_removed t.remove

  unfoldable pub validate : HeaderTransforms → Result (Unit {0}) TransformError
  validate t = validate_transform t.request >> validate_transform t.response

  abbrev pub compile_name : Text → Result Text TransformError
  compile_name name = ok_or (header_name name) (bad_name name)

  abbrev pub compile_entry : Text × Text → Result (Text × Text) TransformError
  compile_entry (name, value) =
      compile_name name >>= λ n. ok_or (header_value value) (bad_value name) >>= λ v. ok (n, v)

  unfoldable pub compile : HeaderTransform → Result CompiledRules TransformError
  compile t = collect compile_name t.remove >>= λ remove.
      collect compile_entry t.add >>= λ add. ok (record { remove = remove; add = add })

  unfoldable pub from_config : HeaderTransforms → Result HeaderTransformLayer TransformError
  unfolding compile
  from_config t = compile t.request >>= λ request.
      compile t.response >>= λ response. ok (record { request = request; response = response })

abbrev pub removed_from : List Text → HeaderMap → HeaderMap
removed_from [] hs = hs
removed_from (name ∷ names) hs = removed_from names (remove_header name hs)

abbrev pub added_to : List (Text × Text) → HeaderMap → HeaderMap
added_to [] hs = hs
added_to ((name, value) ∷ add) hs = added_to add (insert_header name value hs)

-- Removes first, then inserts.
unfoldable pub apply : CompiledRules → HeaderMap → HeaderMap
apply rules hs = added_to rules.add (removed_from rules.remove hs)

-- The service that a layer wraps has a state, and reads a request, of which only the headers change.
module _ {Req Resp S : Type 0} where
  unfoldable pub call :
      HeaderTransformLayer
      → (HeaderMap × Req → S → (HeaderMap × Resp) × S)
      → HeaderMap × Req
      → S
      → (HeaderMap × Resp) × S
  unfolding apply
  call layer inner (headers, req) s =
      let ((hs, resp), s') = inner (apply layer.request headers, req) s in
      ((apply layer.response hs, resp), s')
