-- ===== src/Reference/Check.antt =====
-- `verifyCheckRow` of api/executor_locator.go with the manifest of a payload that is kept in a Volume.
-- The decoders of JSON are parameters, as in `Reference.Defense`.
use test_miti_check.Prelude.{
  ℕ, Bool, true, false, Option, none, some, [], ◌∷◌, ◌++◌, ◌&&◌, eqb, if◌then◌else◌,
}
use test_miti_check.Prelude.Text.{Text, text, text_eq, is_empty, drop_prefix}
use test_miti_check.Prelude.Text.Numbers.{ℤ, pos, leb_int, eqb_int}
use test_miti_check.Prelude.Results.{Result, require, ◌>>◌}
use test_miti_check.Api.Locator.{Locator, valid_sha256, max_payload}
use test_miti_check.Reference.Json.{
  Json, null, number, array, object, no_items, item, Members, no_members, field, members_of,
  count_members,
}
use test_miti_check.Reference.Defense.{DefenseCodec}

-- `checkRow`.
pub record CheckRow : Type 0 where
  pub result_id : Text
  pub run_id : Text
  pub request_id : Text
  pub correlation_id : Text
  pub capability : Text
  pub terminal_state : Text
  pub status : Text
  pub result_json : Text
  pub completion_json : Text
  pub result_sha256 : Text
  pub result_size_bytes : ℤ
  pub created_at : Text

-- `volumeManifest`.
pub record Manifest : Type 0 where
  pub contract_type : Text
  pub contract_version : Text
  pub reference : Text
  pub media_type : Text
  pub encoding : Text
  pub content_sha256 : Text
  pub size_bytes : ℤ
  pub catalog : Text
  pub schema : Text
  pub name : Text

-- The wrapper of a stored result; `run_result` is the text of the member.
pub record Stored : Type 0 where
  pub contract_type : Text
  pub contract_version : Text
  pub result_id : Text
  pub run_result : Text

-- `decode` is `decodeJSONAny`, `sort` is `marshalSortedJSON`, `ecma` is `ecmaNumber` of what
-- `strconv.ParseFloat` reads, and `integer` is `json.Number.Int64`.
pub record CheckCodec : Type 0 where
  pub shared : DefenseCodec
  pub decode : Text → Option Json
  pub sort : Json → Text
  pub manifest : Text → Option Manifest
  pub stored : Text → Option Stored
  pub ecma : Text → Option Text
  pub integer : Text → Option ℤ

unfoldable pub row_matches : CheckRow → Locator → Bool
unfolding text_eq
row_matches row l =
    text_eq row.result_id l.result_id
    && text_eq row.run_id l.run_id
    && text_eq row.request_id l.request_id
    && text_eq row.correlation_id l.correlation_id
    && text_eq row.capability l.capability
    && text_eq row.terminal_state l.terminal_state
    && text_eq row.status l.status

-- `volumeManifest.digest`, which leaves a text without the prefix as it is.
unfoldable pub manifest_digest : Manifest → Text
unfolding drop_prefix text
manifest_digest m = elim (drop_prefix (text "sha256:") m.content_sha256) [
  | some digest ↦ digest
  | none ↦ m.content_sha256
]

-- `volumeManifest.validate`.
unfoldable pub valid_manifest : Manifest → Bool
unfolding manifest_digest valid_sha256 text_eq text
valid_manifest m =
    text_eq m.contract_type (text "janus-volume-payload-manifest")
    && text_eq m.contract_version (text "1.0")
    && text_eq m.media_type (text "application/json")
    && text_eq m.encoding (text "identity")
    && valid_sha256 m.content_sha256
    && text_eq m.reference (text "payload://sha256/" ++ manifest_digest m)
    && leb_int (pos 1) m.size_bytes
    && leb_int m.size_bytes (pos max_payload)
    && text_eq m.catalog (text "36889_janus_dev")
    && text_eq m.schema (text "check_generation")
    && text_eq m.name (text "payloads")

-- `validateManifestShape`, on the members of the payload.
unfoldable pub validate_manifest_shape : Members → Result Text (Unit {0})
unfolding count_members field text
validate_manifest_shape fields = do
  require (eqb (count_members fields) 8) (text "manifest fields are invalid")
  require (eqb (count_members (members_of (field (text "volume") fields))) 3)
      (text "manifest Volume fields are invalid")

unfoldable pub first_chars : ℕ → Text → Text
first_chars ℕ.zero s = []
first_chars (ℕ.suc n) [] = []
first_chars (ℕ.suc n) (c ∷ s) = c ∷ first_chars n s

unfoldable pub skip_chars : ℕ → Text → Text
skip_chars ℕ.zero s = s
skip_chars (ℕ.suc n) [] = []
skip_chars (ℕ.suc n) (c ∷ s) = skip_chars n s

-- `digest()[0:2]`, `digest()[2:4]` and `digest()`, below the Volume. A valid digest has 64 characters.
unfoldable pub volume_path : Manifest → Text
unfolding manifest_digest first_chars skip_chars text
volume_path m =
    let digest = manifest_digest m in
    text "/Volumes/36889_janus_dev/check_generation/payloads/sha256/"
    ++ (first_chars 2 digest
        ++ (text "/" ++ (first_chars 2 (skip_chars 2 digest) ++ (text "/" ++ digest))))

abbrev pub manifest_of : Option Manifest → Option Manifest
manifest_of none = none
manifest_of (some m) =
    if text_eq m.contract_type (text "janus-volume-payload-manifest") then some m else none

abbrev pub present {ℓ} : {A : Type ℓ} → Option A → Bool
present none = false
present (some a) = true

-- A `null` decodes into no map.
abbrev pub as_map : Option Json → Option Members
as_map (some (object ms)) = some ms
as_map (some null) = some no_members
as_map _ = none

abbrev pub one_item : Option Json → Bool
one_item (some (array (item v no_items))) = true
one_item _ = false

abbrev pub or_null : Option Json → Json
or_null (some v) = v
or_null none = null

abbrev pub integer_of : (Text → Option ℤ) → Option Json → Option ℤ
integer_of read (some (number n)) = read n
integer_of read _ = none

abbrev pub int_is : Option ℤ → ℕ → Bool
int_is none n = false
int_is (some z) n = eqb_int z (pos n)

abbrev pub usable : Option Stored → Option Stored
usable none = none
usable (some s) = if is_empty s.run_result then none else some s
