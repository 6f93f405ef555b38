-- ===== src/Canonical/Integrity.antt =====
-- Payloads that the validation accepts, and that what the service writes is accepted.
use Prim.Native.String.{len}
use mathlib.Core.Path.{subst}
use test_miti_check.Prelude.{String, false, some, ◌≡◌, arith, eq_refl, eqb, eq→≡, inl, inr}
use test_miti_check.Outcome.{RunOutcome}
use test_miti_check.Canonical.{
  Codec, ok, unsigned_payload, set_canonical_integrity, validate_canonical_result_payload,
  canonical_result_payload, Result-cases,
}

-- A payload that is the canonical JSON of an outcome with the digest and the size of its own
-- unsigned bytes, and with the identity of `out`.
pub record IsCanonical (codec : Codec) (out : RunOutcome) (payload : String) : Type 0 where
  pub decoded : RunOutcome
  pub source : String
  pub reads : codec.unmarshal payload ≡ some decoded
  pub writes : codec.marshal decoded ≡ some payload
  pub signs : unsigned_payload codec decoded ≡ ok source
  pub content : decoded.content_sha256 ≡ codec.digest source
  pub size : decoded.size_bytes ≡ len source
  pub same_run : decoded.run_id ≡ out.run_id
  pub same_result : decoded.result_id ≡ out.result_id
  pub same_content : decoded.content_sha256 ≡ out.content_sha256
  pub same_size : decoded.size_bytes ≡ out.size_bytes

module _ (codec : Codec) (out : RunOutcome) (payload : String) where
  accepted :
      (decoded : RunOutcome) (source full : String)
      → codec.unmarshal payload ≡ some decoded
      → unsigned_payload codec decoded ≡ ok source
      → codec.marshal decoded ≡ some full
      → validate_canonical_result_payload codec out payload ≡ ok tt
      → IsCanonical codec out payload
  unfolding validate_canonical_result_payload
  accepted decoded source full r s m h = record {
    decoded = decoded;
    source = source;
    reads = r;
    writes = let e : full ≡ payload = eq→≡ _ _ (ground arith) in rw (← e) m;
    signs = s;
    content = eq→≡ _ _ (ground arith);
    size = ground arith;
    same_run = eq→≡ _ _ (ground arith);
    same_result = eq→≡ _ _ (ground arith);
    same_content = eq→≡ _ _ (ground arith);
    same_size = ground arith;
  }

  decodes :
      validate_canonical_result_payload codec out payload ≡ ok tt
      → (decoded : RunOutcome) × (codec.unmarshal payload ≡ some decoded)
  unfolding validate_canonical_result_payload
  decodes h = ground arith

  signed_source :
      (decoded : RunOutcome)
      → codec.unmarshal payload ≡ some decoded
      → validate_canonical_result_payload codec out payload ≡ ok tt
      → (source : String) × (unsigned_payload codec decoded ≡ ok source)
  unfolding validate_canonical_result_payload
  signed_source decoded r h = elim (Result-cases (unsigned_payload codec decoded)) [
    | inl found ↦ found
    | inr failed ↦ let e = failed.1 in ground arith
  ]

  encodes :
      (decoded : RunOutcome) (source : String)
      → codec.unmarshal payload ≡ some decoded
      → unsigned_payload codec decoded ≡ ok source
      → validate_canonical_result_payload codec out payload ≡ ok tt
      → (full : String) × (codec.marshal decoded ≡ some full)
  unfolding validate_canonical_result_payload
  encodes decoded source r s h = ground arith

  -- A payload that the validation accepts for an outcome decodes to a result of the same run,
  -- result id, digest and size, is its marshalled form, and carries the digest and the size of
  -- its unsigned form.
  pub validate-IsCanonical :
      validate_canonical_result_payload codec out payload ≡ ok tt → IsCanonical codec out payload
  validate-IsCanonical h =
      let (decoded, r) = decodes h in
      let (source, s) = signed_source decoded r h in
      let (full, m) = encodes decoded source r s h in accepted decoded source full r s m h

module _ (codec : Codec)
    (reads_back : (o : RunOutcome) (p : String)
      → codec.marshal o ≡ some p
      → codec.unmarshal p ≡ some o)
    (never_empty : (o : RunOutcome) (p : String)
      → codec.marshal o ≡ some p
      → eqb (len p) 0 ≡ false) where
  sealed_passes :
      (out : RunOutcome) (source payload : String)
      → let sealed = record out { content_sha256 = codec.digest source; size_bytes = len source } in
        unsigned_payload codec sealed ≡ ok source
        → codec.marshal sealed ≡ some payload
        → canonical_result_payload codec sealed ≡ ok payload
  unfolding canonical_result_payload validate_canonical_result_payload
  sealed_passes out source payload u m =
      let sealed = record out { content_sha256 = codec.digest source; size_bytes = len source } in
      ground (
        arith,
        reads_back sealed payload,
        never_empty sealed payload,
        eq_refl payload,
        eq_refl out.run_id,
        eq_refl out.result_id,
        eq_refl (codec.digest source),
      )

  -- An outcome that was sealed by `setCanonicalIntegrity` is written as its own JSON, which passes
  -- the validation, if decoding reads back what encoding wrote and no encoding is empty.
  pub canonical_result_payload-set_canonical_integrity :
      (out sealed : RunOutcome) (payload : String)
      → set_canonical_integrity codec out ≡ ok sealed
      → codec.marshal sealed ≡ some payload
      → canonical_result_payload codec sealed ≡ ok payload
  unfolding set_canonical_integrity unsigned_payload
  canonical_result_payload-set_canonical_integrity out sealed payload s m =
      elim (Result-cases (unsigned_payload codec out)) [
        | inl found ↦
            let source = found.0 in
            let u = found.1 in
            let signed : RunOutcome = record out {
              content_sha256 = codec.digest source;
              size_bytes = len source;
            } in
            let e : signed ≡ sealed = ground arith in
            subst
              (λ o. codec.marshal o ≡ some payload → canonical_result_payload codec o ≡ ok payload)
              e (sealed_passes out source payload u) m
        | inr failed ↦ let e = failed.1 in ground arith
      ]
