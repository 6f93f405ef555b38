-- ===== src/Shared/Pointer.antt =====
-- `resolveSharedJSONPointer`, `resolveSharedInternalLocator` and `resolveSharedBody` of
-- api/shared_contract_v2.go. The functions of Go's packages are parameters, and bytes are texts.
use test_miti_check.Prelude.{
  ℕ, Option, none, some, List, [], ◌∷◌, ◌++◌, ◌&&◌, not, eqb, if◌then◌else◌,
}
use test_miti_check.Prelude.Text.{Text, text, text_eq, is_empty, split, drop_prefix}
use test_miti_check.Prelude.Text.Numbers.{ℤ, pos, negsuc, leb_int, eqb_int}
use test_miti_check.Prelude.Results.{Result, ok, err, or_error, require, ◌>>=◌, ◌>>◌}
use test_miti_check.Api.Locator.{valid_sha256}
use test_miti_check.Upstream.Candidate.{drop_suffix}
use test_miti_check.Reference.Json.{
  Json, string, array, object, Items, no_items, item, Members, field, string_at, replace_from,
  write, byte_count,
}
use test_miti_check.Shared.Input.{ContentLocator, Body}

-- The errors of a pointer that the caller tells apart.
pub data PointerError : Type 0 where
  member_absent index_invalid : PointerError
  broken : Text → PointerError

-- `scan` is `fmt.Sscanf` with `%d`; `decode64` is strict base 64; `digest` is `sha256Value`; `escape`
-- is `url.QueryEscape` and `unescape` is `url.PathUnescape`.
pub record Codec : Type 0 where
  pub scan : Text → Option ℤ
  pub decode64 : Text → Result Text Text
  pub decode_hex : Text → Result Text Text
  pub digest : Text → Text
  pub escape : Text → Text
  pub unescape : Text → Result Text Text
  pub ecma : Text → Option Text
  pub decode_strict : Text → Result Text Json

-- `~1` is `/`, and then `~0` is `~`.
unfoldable pub pointer_token : Text → Text
unfolding replace_from text
pointer_token t =
    replace_from (text "~0") 1 (text "~") 0 (replace_from (text "~1") 1 (text "/") 0 t)

unfoldable pub item_at : ℕ → Items → Option Json
item_at n no_items = none
item_at ℕ.zero (item v items) = some v
item_at (ℕ.suc n) (item v items) = item_at n items

abbrev pub indexed : Option ℤ → Items → Option Json
indexed none items = none
indexed (some (negsuc n)) items = none
indexed (some (pos n)) items = item_at n items

module _ (codec : Codec) where
  unfoldable pub child : Json → Text → Result PointerError Json
  unfolding field item_at text
  child (object ms) token = or_error (field token ms) member_absent
  child (array items) token = or_error (indexed (codec.scan token) items) index_invalid
  child _ token = err (broken (text "JSON pointer traverses a scalar"))

  unfoldable pub follow : Json → List Text → Result PointerError Json
  unfolding child pointer_token
  follow v [] = ok v
  follow v (t ∷ tokens) = child v (pointer_token t) >>= (λ c. follow c tokens)

  -- `resolveSharedJSONPointer`.
  unfoldable pub resolve_pointer : Json → Text → Result PointerError Json
  unfolding follow split text
  resolve_pointer root [] = ok root
  resolve_pointer root (c ∷ pointer) =
      if eqb c b'/'
      then follow root (split b'/' pointer)
      else err (broken (text "invalid JSON pointer"))

  abbrev pub plainly : {A : Type 0} → Result PointerError A → Result Text A
  plainly (ok a) = ok a
  plainly (err member_absent) = err (text "JSON pointer member is absent")
  plainly (err index_invalid) = err (text "JSON pointer index is invalid")
  plainly (err (broken e)) = err e

  -- The bytes of a value under a media type.
  unfoldable pub content_of : Text → Json → Option Text
  unfolding write text_eq drop_suffix text
  content_of media_type (string s) =
      if text_eq media_type (text "application/json")
      then write codec.ecma (string s)
      else if not (text_eq (drop_suffix (text "+json") media_type) media_type)
      then write codec.ecma (string s)
      else some s
  content_of media_type v = write codec.ecma v

  abbrev pub internal_prefix : Members → Text
  internal_prefix enclosing =
      text "janus-result-internal:"
      ++ (codec.escape (string_at (text "result_id") enclosing) ++ text "#")

  -- `resolveSharedInternalLocator`.
  unfoldable pub resolve_internal : ContentLocator → Members → Result Text Text
  unfolding valid_sha256 resolve_pointer content_of byte_count string_at drop_prefix text_eq text
  resolve_internal l enclosing = do
    require (l.immutable && valid_sha256 l.digest && leb_int (pos 0) l.byte_length)
        (text "immutable locator metadata is invalid")
    escaped ←
        or_error (drop_prefix (internal_prefix enclosing) l.uri)
          (text "locator is not result-internal")
    pointer ← codec.unescape escaped
    value ← plainly (resolve_pointer (object enclosing) pointer)
    content ←
        or_error (content_of l.media_type value) (text "result-internal locator content differs")
    require
        (eqb_int (pos (byte_count content)) l.byte_length
          && text_eq (codec.digest content) l.digest)
        (text "result-internal locator content differs")
    ok content

  abbrev pub sized : ℤ → Result Text Text → Result Text Text
  sized size (err e) = err (text "present body locator/content differs")
  sized size (ok content) =
      if eqb_int (pos (byte_count content)) size
      then ok content
      else err (text "present body locator/content differs")

  abbrev pub empty_body : Body → Result Text Text → Result Text Text
  empty_body b (err e) = err (text "empty body metadata differs")
  empty_body b (ok decoded) =
      if is_empty decoded && eqb_int b.content_length (pos 0) && text_eq b.digest (codec.digest [])
      then ok []
      else err (text "empty body metadata differs")

  abbrev pub present_body : Option ContentLocator → ℤ → Members → Result Text Text
  present_body none size enclosing = err (text "present body locator is absent")
  present_body (some l) size enclosing =
      if leb_int (pos 1) size
      then sized size (resolve_internal l enclosing)
      else err (text "present body locator is absent")

  -- `resolveSharedBody`.
  unfoldable pub resolve_body : Body → Members → Result Text Text
  unfolding resolve_internal byte_count text_eq text
  resolve_body b enclosing =
      if text_eq b.state (text "absent")
      then ok []
      else if text_eq b.state (text "empty")
      then empty_body b (codec.decode64 b.content_base64)
      else if text_eq b.state (text "present")
      then present_body b.content b.content_length enclosing
      else err (text "unknown body state")
