-- ===== src/Shared/Input.antt =====
-- The HTTP inputs and the routes of api/shared_contract_v2.go.
use test_miti_check.Prelude.{Bool, Option, List, [], ◌∷◌, ◌&&◌, not, if◌then◌else◌}
use test_miti_check.Prelude.Text.{Text, text, text_eq, is_empty, equal_fold}
use test_miti_check.Prelude.Text.Numbers.{ℤ}

-- `sharedContentLocator`.
pub record ContentLocator : Type 0 where
  pub uri : Text
  pub digest : Text
  pub media_type : Text
  pub byte_length : ℤ
  pub immutable : Bool

-- `sharedHTTPField`.
pub record Field : Type 0 where
  pub name : Text
  pub value : Text

-- `sharedHTTPBody`.
pub record Body : Type 0 where
  pub state : Text
  pub content_base64 : Text
  pub content_length : ℤ
  pub digest : Text
  pub content : Option ContentLocator

-- `sharedHTTPInput`.
pub record HttpInput : Type 0 where
  pub modality : Text
  pub method : Text
  pub scheme : Text
  pub authority : Text
  pub path : Text
  pub path_key : Text
  pub query : List Field
  pub headers : List Field
  pub cookies : List Field
  pub body : Body

-- `sharedRouteBinding`.
pub record RouteBinding : Type 0 where
  pub kind : Text
  pub method : Text
  pub path_key : Text
  pub scheme : Text
  pub authority : Text
  pub path : Text

-- `sharedRouteApplies`.
unfoldable pub route_applies : RouteBinding → RouteBinding → Bool
unfolding text_eq text
route_applies bound actual =
    text_eq bound.kind actual.kind
    && text_eq bound.method actual.method
    && (if text_eq bound.kind (text "opaque-path-key")
        then text_eq bound.path_key actual.path_key
        else text_eq bound.scheme actual.scheme
          && text_eq bound.authority actual.authority
          && text_eq bound.path actual.path)

-- `validSharedRouteBinding`.
unfoldable pub valid_route_binding : RouteBinding → Bool
unfolding text_eq text
valid_route_binding r =
    not (is_empty r.method)
    && (if text_eq r.kind (text "opaque-path-key")
        then not (is_empty r.path_key)
          && is_empty r.path
          && is_empty r.scheme
          && is_empty r.authority
        else text_eq r.kind (text "rendered-http-route")
          && not (is_empty r.path)
          && is_empty r.path_key)

-- `namedHTTPValues`.
unfoldable pub named_values : List Field → Text → List Text
unfolding text_eq
named_values [] name = []
named_values (f ∷ fields) name =
    let rest = named_values fields name in if text_eq f.name name then f.value ∷ rest else rest

-- `namedHTTPValuesFold`.
unfoldable pub named_values_fold : List Field → Text → List Text
unfolding equal_fold
named_values_fold [] name = []
named_values_fold (f ∷ fields) name =
    let rest = named_values_fold fields name in
    if equal_fold f.name name then f.value ∷ rest else rest
