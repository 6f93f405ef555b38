-- ===== src/Reference/Checked.antt =====
-- `verifyCheckRow` of api/executor_locator.go, step by step.
use test_miti_check.Prelude.{
  Bool, Option, none, some, List, [], ◌∷◌, ◌++◌, ◌&&◌, ◌||◌, not, if◌then◌else◌,
}
use test_miti_check.Prelude.Text.{Text, text, text_eq}
use test_miti_check.Prelude.Text.Numbers.{ℤ, pos, leb_int, eqb_int}
use test_miti_check.Prelude.Results.{Result, ok, err, or_error, require, ◌>>=◌, ◌>>◌}
use test_miti_check.Api.Locator.{Locator, valid_sha256}
use test_miti_check.Upstream.Candidate.{drop_suffix}
use test_miti_check.Upstream.Execute.{because}
use test_miti_check.Reference.Json.{
  Json, string, object, Members, no_members, member, field, string_at, members_of, has_exact_fields,
  string_array, write, byte_count,
}
use test_miti_check.Reference.Defense.{sha256_value, same_timestamp}
use test_miti_check.Reference.Check.{
  CheckRow, CheckCodec, Manifest, Stored, row_matches, valid_manifest, validate_manifest_shape,
  volume_path, manifest_of, present, as_map, one_item, or_null, integer_of, int_is, usable,
}

abbrev pub completion_fields : List Text
completion_fields =
    text "capability"
    ∷ text "contract_id"
    ∷ text "run_id"
    ∷ text "result_id"
    ∷ text "terminal_state"
    ∷ text "status"
    ∷ text "request_id"
    ∷ text "correlation_id"
    ∷ text "result_ref"
    ∷ text "upstream_result_refs"
    ∷ text "evidence_refs"
    ∷ text "characterization_revision_id"
    ∷ text "result_contract_type"
    ∷ text "result_contract_version"
    ∷ text "subject_record_revision_id"
    ∷ text "content_sha256"
    ∷ text "size_bytes"
    ∷ text "created_at"
    ∷ []

-- The members that `core` takes from the completion, less `created_at`.
abbrev pub core_fields : List Text
core_fields =
    text "capability"
    ∷ text "result_id"
    ∷ text "run_id"
    ∷ text "request_id"
    ∷ text "correlation_id"
    ∷ text "terminal_state"
    ∷ text "status"
    ∷ text "upstream_result_refs"
    ∷ text "evidence_refs"
    ∷ text "subject_record_revision_id"
    ∷ text "characterization_revision_id"
    ∷ []

unfoldable pub copy_fields : List Text → Members → Members → Members
unfolding field
copy_fields [] completion rest = rest
copy_fields (f ∷ fields) completion rest =
    member f (or_null (field f completion)) (copy_fields fields completion rest)

-- `core`.
unfoldable pub core : Members → Json → Json → Json
unfolding copy_fields text
core completion nested created = object (
    copy_fields core_fields completion (
      member (text "created_at") created (
        member (text "contract_id") (string (text "check-generation-result@1.0"))
          (member (text "run_result") nested no_members))))

abbrev pub is_v21 : Locator → Bool
is_v21 l = text_eq l.contract_id (text "check-generation@2.1")

abbrev pub result_type : Locator → Text
result_type l = if is_v21 l then text "check-generation" else text "check-generation-result"

abbrev pub result_version : Locator → Text
result_version l = if is_v21 l then text "2.1" else text "1.0"

unfoldable pub refers_to_row : Members → Locator → Bool
unfolding string_at text_eq text
refers_to_row ref l =
    text_eq (string_at (text "system") ref) (text "databricks")
    && text_eq (string_at (text "catalog") ref) (text "36889_janus_dev")
    && text_eq (string_at (text "schema") ref) (text "check_generation")
    && text_eq (string_at (text "table") ref) (text "check_generation_results")
    && text_eq (string_at (text "key") ref) l.result_id

unfoldable pub stored_identifies : Stored → Locator → Bool
unfolding text_eq text
stored_identifies s l =
    text_eq s.contract_type (text "check-generation-persisted-result")
    && text_eq s.contract_version (text "1.0")
    && text_eq s.result_id l.result_id

unfoldable pub nested_identifies : Members → Locator → Bool
unfolding string_at text_eq text
nested_identifies ms l =
    text_eq (string_at (text "contract_id") ms) (text "check-generation@2.1")
    && text_eq (string_at (text "run_id") ms) l.run_id
    && text_eq (string_at (text "request_id") ms) l.request_id
    && text_eq (string_at (text "run_status") ms) (text "completed")

-- The time with `+00:00` for a final `Z`.
unfoldable pub utc_form : Json → Option Text
unfolding drop_suffix text_eq text
utc_form (string t) =
    let stem = drop_suffix (text "Z") t in
    if text_eq stem t then none else some (stem ++ text "+00:00")
utc_form _ = none

abbrev pub created_text : Json → Text
created_text (string t) = t
created_text _ = []

module _ (codec : CheckCodec) (volume : Text → ℤ → Result Text Text) where
  unfoldable pub completion_identifies : Members → Locator → Bool
  unfolding string_at field refers_to_row text_eq text
  completion_identifies c l =
      text_eq (string_at (text "capability") c) l.capability
      && text_eq (string_at (text "contract_id") c) (text "capability-completion@1.0")
      && text_eq (string_at (text "result_contract_type") c) (result_type l)
      && text_eq (string_at (text "result_contract_version") c) (result_version l)
      && text_eq (string_at (text "result_id") c) l.result_id
      && text_eq (string_at (text "run_id") c) l.run_id
      && text_eq (string_at (text "request_id") c) l.request_id
      && text_eq (string_at (text "correlation_id") c) l.correlation_id
      && text_eq (string_at (text "terminal_state") c) l.terminal_state
      && text_eq (string_at (text "status") c) l.status
      && text_eq (string_at (text "content_sha256") c) l.content_sha256
      && int_is (integer_of codec.integer (field (text "size_bytes") c)) l.size_bytes
      && refers_to_row (members_of (field (text "result_ref") c)) l

  -- Whether a text has a digest and a size.
  unfoldable pub has_digest : Text → Text → ℤ → Bool
  unfolding sha256_value byte_count text_eq
  has_digest content digest size =
      text_eq (sha256_value codec.shared content) digest && eqb_int (pos (byte_count content)) size

  -- The payload of a manifest.
  unfoldable pub payload_of : Text → Option Manifest → Result Text Text
  unfolding has_digest valid_manifest validate_manifest_shape volume_path text
  payload_of physical none = ok physical
  payload_of physical (some m) = do
    because (text "Check Generation Volume manifest: ")
        (validate_manifest_shape (members_of (codec.decode physical)))
    require (valid_manifest m)
        (text "Check Generation Volume manifest: manifest fields or namespace are invalid")
    payload ←
        because (text "read Check Generation Volume payload: ")
          (volume (volume_path m) m.size_bytes)
    require (has_digest payload m.content_sha256 m.size_bytes)
        (text "Check Generation Volume payload integrity verification failed")
    ok payload

  -- From the decoded `result_json` to the payload.
  unfoldable pub physical_payload : CheckRow → Text → Result Text Text
  unfolding has_digest payload_of valid_sha256 text
  physical_payload row physical = do
    require
        (has_digest physical row.result_sha256 row.result_size_bytes
          || not (present (manifest_of (codec.manifest physical))))
        (text "Check Generation physical result integrity verification failed")
    require
        (has_digest physical row.result_sha256 row.result_size_bytes
          || (valid_sha256 row.result_sha256 && leb_int (pos 1) row.result_size_bytes))
        (text "Check Generation physical result integrity metadata is invalid")
    payload_of physical (manifest_of (codec.manifest physical))

  -- The time of the logical result, which is first tried as the completion has it.
  abbrev pub retry : Members → Json → Locator → Option Text → Result Text Json
  retry completion nested l none =
      err (text "Check Generation logical result integrity verification failed")
  retry completion nested l (some t) = do
    logical ← or_error (write codec.ecma (core completion nested (string t))) (text "RFC 8785")
    require (has_digest logical l.content_sha256 (pos l.size_bytes))
        (text "Check Generation logical result integrity verification failed")
    ok (string t)

  unfoldable pub logical_time : Members → Json → Locator → Json → Result Text Json
  unfolding has_digest core write utc_form text
  logical_time completion nested l created = do
    logical ← or_error (write codec.ecma (core completion nested created)) (text "RFC 8785")
    let again = retry completion nested l (utc_form created)
    if has_digest logical l.content_sha256 (pos l.size_bytes) then ok created else again

  -- The checks on the completion and on the run's result.
  unfoldable pub verify_completion :
      CheckRow → Locator → Stored → Members → Result Text (Text × List Text)
  unfolding completion_identifies has_exact_fields field string_array nested_identifies logical_time
      same_timestamp text
  verify_completion row l stored completion = do
    require (has_exact_fields completion_fields completion)
        (text "Check Generation completion contract shape is invalid")
    require (completion_identifies completion l)
        (text "Check Generation completion identity differs from locator")
    require (one_item (field (text "upstream_result_refs") completion))
        (text "Check Generation completion lineage is invalid")
    evidence ←
        or_error (string_array (field (text "evidence_refs") completion))
          (text "Check Generation completion lineage is invalid")
    nested ← or_error (codec.decode stored.run_result) (text "run_result")
    require (nested_identifies (members_of (some nested)) l)
        (text "Check Generation nested run identity differs from locator")
    created ← logical_time completion nested l (or_null (field (text "created_at") completion))
    require
        (same_timestamp codec.shared (created_text created) l.created_at
          && same_timestamp codec.shared row.created_at l.created_at)
        (text "Check Generation created_at differs from locator")
    ok (stored.run_result, evidence)

  -- `verifyCheckRow`.
  unfoldable pub verify_check_row : CheckRow → Locator → Result Text (Text × List Text)
  unfolding row_matches physical_payload stored_identifies verify_completion text
  verify_check_row row l = do
    require (row_matches row l) (text "Check Generation physical row identity differs from locator")
    document ←
        or_error (codec.decode row.result_json) (text "canonicalize Check Generation result_json")
    payload ← physical_payload row (codec.sort document)
    stored ←
        or_error (usable (codec.stored payload))
          (text "Check Generation stored result has no run_result")
    require (stored_identifies stored l)
        (text "Check Generation persisted wrapper identity is invalid")
    completion ←
        or_error (as_map (codec.decode row.completion_json))
          (text "decode Check Generation completion_json")
    verify_completion row l stored completion
