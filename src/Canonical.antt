-- ===== src/Canonical.antt =====
-- The canonical result payload: `setCanonicalIntegrity` of api/lifecycle.go and
-- `canonicalResultPayload`, `validateCanonicalResultPayload` of api/lifecycle_store.go.
pub mod Integrity
use Prim.Native.String.{len}
use test_miti_check.Prelude.{
  ℕ, String, Bool, true, false, Option, none, some, ◌≡◌, refl, ◌⊎◌, inl, inr, ◌==◌, ◌&&◌, not, eqb,
  if◌then◌else◌,
}
pub use test_miti_check.Prelude.Results.{
  Result, ok, err, ◌>>=◌, ◌>>◌, require, or_error, Result-cases,
}
use test_miti_check.Outcome.{RunOutcome}

-- encoding/json on `RunOutcome`, the RFC 8785 form of a JSON text (`decodeJSONAny` and then
-- `marshalRFC8785`), and the "sha256:…" digest of a text.
pub record Codec : Type 0 where
  pub marshal : RunOutcome → Option String
  pub unmarshal : String → Option RunOutcome
  pub canonicalize : String → Option String
  pub digest : String → String

pub data PayloadError : Type 0 where
  empty undecodable other_identity unencodable uncanonicalized bad_integrity not_canonical :
      PayloadError

-- The outcome without its integrity fields.
abbrev pub unsigned : RunOutcome → RunOutcome
unsigned out = record out { content_sha256 = ""; size_bytes = 0 }

module _ (codec : Codec) where
  -- The bytes that the integrity fields are computed from.
  unfoldable pub unsigned_payload : RunOutcome → Result PayloadError String
  unsigned_payload out = do
    payload ← or_error (codec.marshal (unsigned out)) unencodable
    if out.profile_id == ""
        then ok payload
        else or_error (codec.canonicalize payload) uncanonicalized

  unfoldable pub set_canonical_integrity : RunOutcome → Result PayloadError RunOutcome
  set_canonical_integrity out = do
    payload ← unsigned_payload out
    ok (record out { content_sha256 = codec.digest payload; size_bytes = len payload })

  unfoldable pub validate_canonical_result_payload :
      RunOutcome → String → Result PayloadError (Unit {0})
  validate_canonical_result_payload out payload = do
    require (not (eqb (len payload) 0)) empty
    decoded ← or_error (codec.unmarshal payload) undecodable
    require
        (decoded.run_id == out.run_id
          && decoded.result_id == out.result_id
          && decoded.content_sha256 == out.content_sha256
          && eqb decoded.size_bytes out.size_bytes)
        other_identity
    canonical_unsigned ← unsigned_payload decoded
    require
        (decoded.content_sha256 == codec.digest canonical_unsigned
          && eqb decoded.size_bytes (len canonical_unsigned))
        bad_integrity
    canonical_full ← or_error (codec.marshal decoded) unencodable
    require (canonical_full == payload) not_canonical

  unfoldable pub canonical_result_payload : RunOutcome → Result PayloadError String
  canonical_result_payload out = do
    payload ← or_error (codec.marshal out) unencodable
    validate_canonical_result_payload out payload
    ok payload
